-- ===== src/Ssh/Connection/Connecting.antt =====
-- The steps of a connect keep every SSH client owned.
use mathlib.Core.Path.{subst}
use lab_remote_go.Common.{
  sym, some-inj, ℕ_discrete, ap, ℕ, ◌≡◌, refl, ◌∙◌, ◌⊎◌, inl, inr, Bool, true, false, not, ◌||◌,
  ◌&&◌, ◌∷◌, Option, none, some, if◌then◌else◌, ◌==◌, arith,
}
use lab_remote_go.Ssh.Connection.{
  Flight, resting, probing, dialing, holding, Runtime, ConnectStep, begins, probe_replies,
  probe_fails, gives_up, dialed, commits, is_client, without, first_flight, begin, replied,
  unanswered, hold, invalidate_client_if, commit, connect_step,
}
use lab_remote_go.Ssh.Connection.Owning.{
  IsHeld, in_use, held, closed_soon, at_end, IsPlaced, Sound, is_client_refl, none_apart,
  without_self, moved, flown, free_at, invalidate_if-Sound,
}

begin-Sound : (r : Runtime) → r.flight ≡ resting → Sound r → Sound (begin r)
begin-Sound r e s = record {
  placed = waits r.client refl;
  owned = λ c lt.
      flown r (first_flight r.generation r.client) (free_at c r resting e (λ h. h)) (s.owned c lt);
}
  where
    waits : (client : Option ℕ) → r.client ≡ client → IsPlaced r (first_flight r.generation client)
    waits none e = e
    waits (some cached) e = inr (e, refl)

stop-Sound :
    (r : Runtime)
    → ((c : ℕ) → IsHeld c r.flight → ⊥)
    → Sound r
    → Sound (record r { flight = resting })
stop-Sound r free s = record {
  placed = tt;
  owned = λ c lt. flown r resting (free c) (s.owned c lt);
}

module _ (g cached : ℕ) (r : Runtime) (e : r.flight ≡ probing g cached) (s : Sound r) where
  placed_at : (r.client ≡ none) ⊎ (r.client ≡ some cached) × (r.generation ≡ g)
  placed_at = subst (λ f. IsPlaced r f) e s.placed

  replied-Sound : Sound (replied g cached r)
  replied-Sound = record {
    placed = landed (is_client cached r.client && r.generation == g) refl;
    owned = λ c lt.
        flown r (if is_client cached r.client && r.generation == g then resting else dialing g)
          (free_at c r (probing g cached) e (λ h. h)) (s.owned c lt);
  }
    where
      landed :
          (b : Bool)
          → (is_client cached r.client && r.generation == g) ≡ b
          → IsPlaced r (if b then resting else dialing g)
      landed true test = tt
      landed false test = elim placed_at [
        | inl empty ↦ empty
        | inr (there, current) ↦ absurd (
            let hit : (is_client cached r.client && r.generation == g) ≡ true =
              rw (there, current, is_client_refl cached) (ground arith) in
            let clash : true ≡ false = sym hit ∙ test in cc)
      ]

  without-placed :
      (client : Option ℕ) → (client ≡ none) ⊎ (client ≡ some cached) → without cached client ≡ none
  without-placed none h = refl
  without-placed (some d) (inl e) = absurd (cc)
  without-placed (some d) (inr e) = rw (some-inj e) (without_self cached)

  unanswered-Sound : Sound (unanswered g cached r)
  unfolding invalidate_client_if
  unanswered-Sound = record {
    placed =
        without-placed r.client
          (elim placed_at [ inl empty ↦ inl empty | inr (there, _) ↦ inr there ]);
    owned = λ c lt.
        flown (invalidate_client_if cached r) (dialing g)
          (free_at c r (probing g cached) e (λ h. h)) ((invalidate_if-Sound cached r s).owned c lt);
  }

hold-Sound : (g : ℕ) (r : Runtime) → r.flight ≡ dialing g → Sound r → Sound (hold g r)
hold-Sound g r e s = record {
  placed = subst (λ f. IsPlaced r f) e s.placed;
  owned = λ c lt. elim (ℕ_discrete c r.created) [
    | yes same ↦ held same
    | no different ↦
        moved in_use (λ h. absurd (free_at c r (dialing g) e (λ h. h) h)) closed_soon at_end
          (s.owned c (omega (arith, lt, different)))
  ];
}

commit-Sound :
    (g d : ℕ) (ctx_done : Bool) (r : Runtime)
    → r.flight ≡ holding g d
    → Sound r
    → Sound (commit g d ctx_done r)
unfolding commit
commit-Sound g d ctx_done r e s = decided (not (r.generation == g) || ctx_done)
  where
    empty : r.client ≡ none
    empty = subst (λ f. IsPlaced r f) e s.placed

    its : {c : ℕ} → IsHeld c r.flight → c ≡ d
    its {c} h = subst (λ f. IsHeld c f) e h

    decided :
        (b : Bool)
        → Sound (
            if b
            then record r { closing = d ∷ r.closing; flight = resting }
            else record r { client = some d; flight = resting })
    decided true = record {
      placed = tt;
      owned = λ c lt.
          moved in_use (λ h. closed_soon (inl (its h))) (λ q. closed_soon (inr q)) at_end
            (s.owned c lt);
    }
    decided false = record {
      placed = tt;
      owned = λ c lt.
          moved (λ u. absurd (none_apart empty u)) (λ h. in_use (ap some (sym (its h)))) closed_soon
            at_end (s.owned c lt);
    }

pub connect_step-Sound :
    (flight : Flight) (s : ConnectStep) (r : Runtime)
    → r.flight ≡ flight
    → Sound r
    → Sound (connect_step flight s r)
unfolding connect_step
connect_step-Sound resting begins r e h = begin-Sound r e h
connect_step-Sound (probing g c) probe_replies r e h = replied-Sound g c r e h
connect_step-Sound (probing g c) probe_fails r e h = unanswered-Sound g c r e h
connect_step-Sound (dialing g) gives_up r e h =
    stop-Sound r (λ d. free_at d r (dialing g) e (λ k. k)) h
connect_step-Sound (dialing g) dialed r e h = hold-Sound g r e h
connect_step-Sound (holding g c) (commits ctx_done) r e h = commit-Sound g c ctx_done r e h
connect_step-Sound flight s r e h = h
