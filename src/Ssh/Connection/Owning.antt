-- ===== src/Ssh/Connection/Owning.antt =====
-- Who owns an SSH client, and what keeps it so.
use mathlib.Core.Path.{subst}
use lab_remote_go.Common.{
  sym, some-inj, ℕ_discrete, ℕ, ◌<◌, ◌≡◌, refl, ◌∙◌, ◌⊎◌, inl, inr, Bool, true, false, List, [],
  ◌∷◌, Option, none, some, if◌then◌else◌, ◌==◌, arith,
}
use lab_remote_go.Ssh.Connection.{
  Flight, resting, probing, dialing, holding, Runtime, is_client, mark_ended, without, also_closing,
  invalidate_client_if,
}

abbrev pub IsHeld : ℕ → Flight → Type 0
IsHeld c (holding g d) = c ≡ d
IsHeld c resting = ⊥
IsHeld c (probing g d) = ⊥
IsHeld c (dialing g) = ⊥

abbrev pub IsClosing : ℕ → List ℕ → Type 0
IsClosing c [] = ⊥
IsClosing c (d ∷ closing) = (c ≡ d) ⊎ IsClosing c closing

-- in use, held by the connect that made it, about to be closed, or at its end
pub data Owned (c : ℕ) (r : Runtime) : Type 0 where
  in_use : r.client ≡ some c → Owned c r
  held : IsHeld c r.flight → Owned c r
  closed_soon : IsClosing c r.closing → Owned c r
  at_end : r.ended c ≡ true → Owned c r

abbrev pub AllOwned : Runtime → Type 0
AllOwned r = (c : ℕ) → c < r.created → Owned c r

-- Nothing is installed while a connect is about to install its own client.
abbrev pub IsPlaced : Runtime → Flight → Type 0
IsPlaced r resting = Unit {0}
IsPlaced r (probing g cached) = (r.client ≡ none) ⊎ (r.client ≡ some cached) × (r.generation ≡ g)
IsPlaced r (dialing g) = r.client ≡ none
IsPlaced r (holding g c) = r.client ≡ none

pub record Sound (r : Runtime) : Type 0 where
  pub placed : IsPlaced r r.flight
  pub owned : AllOwned r

pub is_client_refl : (c : ℕ) → is_client c (some c) ≡ true
is_client_refl c = ground arith

pub none_apart : {c : ℕ} {client : Option ℕ} → client ≡ none → client ≡ some c → ⊥
none_apart e u = let clash = sym e ∙ u in absurd (cc)

pub different_test : (d b : ℕ) → (d ≡ b → ⊥) → (d == b) ≡ false
different_test d b different = ground arith

pub without-client :
    (c d : ℕ) (client : Option ℕ) → client ≡ some c → (without d client ≡ some c) ⊎ (c ≡ d)
without-client c d none e = absurd (cc)
without-client c d (some b) e = elim (ℕ_discrete b d) [
  | yes same ↦ inr omega (arith, some-inj e, same)
  | no different ↦ inl (rw (different_test d b (λ h. different (sym h))) e)
]

pub without_self : (d : ℕ) → without d (some d) ≡ none
without_self d = rw (is_client_refl d) refl

-- What owned a client still does, or something else does.
pub moved :
    {c : ℕ} {r r' : Runtime}
    → (r.client ≡ some c → Owned c r')
    → (IsHeld c r.flight → Owned c r')
    → (IsClosing c r.closing → Owned c r')
    → (r.ended c ≡ true → Owned c r')
    → Owned c r
    → Owned c r'
moved u h q e (in_use o) = u o
moved u h q e (held o) = h o
moved u h q e (closed_soon o) = q o
moved u h q e (at_end o) = e o

-- A connect that holds no client goes on.
pub flown :
    {c : ℕ} (r : Runtime) (flight : Flight)
    → (IsHeld c r.flight → ⊥)
    → Owned c r
    → Owned c (record r { flight = flight })
flown r flight free = moved in_use (λ h. absurd (free h)) closed_soon at_end

pub free_at :
    (c : ℕ) (r : Runtime) (flight : Flight)
    → r.flight ≡ flight
    → (IsHeld c flight → ⊥)
    → IsHeld c r.flight
    → ⊥
free_at c r flight e free h = free (subst (λ f. IsHeld c f) e h)

pub also_closing-rest :
    (c : ℕ) (client : Option ℕ) (closing : List ℕ)
    → IsClosing c closing
    → IsClosing c (also_closing client closing)
also_closing-rest c none closing q = q
also_closing-rest c (some d) closing q = inr q

pub also_closing-first :
    {c : ℕ} (client : Option ℕ) (closing : List ℕ)
    → client ≡ some c
    → IsClosing c (also_closing client closing)
also_closing-first none closing e = absurd (cc)
also_closing-first (some d) closing e = inl (sym (some-inj e))

-- Whatever empties the place of the client keeps the connect's own place.
pub emptied-IsPlaced :
    (r : Runtime) (flight : Flight) (generation : ℕ) (client : Option ℕ)
    → (client ≡ none) ⊎ ((client ≡ r.client) × (generation ≡ r.generation))
    → IsPlaced r flight
    → IsPlaced (record r { client = client; generation = generation }) flight
emptied-IsPlaced r resting generation client h p = tt
emptied-IsPlaced r (probing g cached) generation client (inl e) p = inl e
emptied-IsPlaced r (probing g cached) generation client (inr (e, f)) (inl p) = inl (e ∙ p)
emptied-IsPlaced r (probing g cached) generation client (inr (e, f)) (inr (p, q)) =
    inr (e ∙ p, f ∙ q)
emptied-IsPlaced r (dialing g) generation client (inl e) p = e
emptied-IsPlaced r (dialing g) generation client (inr (e, f)) p = e ∙ p
emptied-IsPlaced r (holding g c) generation client (inl e) p = e
emptied-IsPlaced r (holding g c) generation client (inr (e, f)) p = e ∙ p

pub without-kept :
    (d : ℕ) (client : Option ℕ) → (without d client ≡ none) ⊎ (without d client ≡ client)
without-kept d client = choice (is_client d client)
  where
    choice :
        (b : Bool) → ((if b then none else client) ≡ none) ⊎ ((if b then none else client) ≡ client)
    choice true = inl refl
    choice false = inr refl

pub without-IsPlaced :
    (d : ℕ) (r : Runtime) → Sound r → IsPlaced (record r { client = without d r.client }) r.flight
without-IsPlaced d r s =
    emptied-IsPlaced r r.flight r.generation (without d r.client)
      (elim (without-kept d r.client) [ inl e ↦ inl e | inr e ↦ inr (e, refl) ]) s.placed

pub invalidate_if-Sound : (d : ℕ) (r : Runtime) → Sound r → Sound (invalidate_client_if d r)
unfolding invalidate_client_if
invalidate_if-Sound d r s = record {
  placed = without-IsPlaced d r s;
  owned = λ c lt.
      moved
        (λ u. elim (without-client c d r.client u) [
          | inl kept ↦ in_use kept
          | inr same ↦ closed_soon (inl same)
        ])
        held (λ q. closed_soon (inr q)) at_end (s.owned c lt);
}

pub mark_ended-kept : (c d : ℕ) (ended : ℕ → Bool) → ended c ≡ true → mark_ended d ended c ≡ true
mark_ended-kept c d ended e = ground arith

pub mark_ended_self : (c d : ℕ) (ended : ℕ → Bool) → c ≡ d → mark_ended d ended c ≡ true
mark_ended_self c d ended e = ground arith
