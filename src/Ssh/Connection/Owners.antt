-- ===== src/Ssh/Connection/Owners.antt =====
-- Every SSH client is somebody's.
use mathlib.Core.Path.{subst}
use lab_remote_go.Common.{
  ◌%◌, ◌^◌, ℕ, ◌+◌, ◌<◌, ◌≡◌, refl, inl, inr, Bool, true, false, List, [], ◌∷◌, none, if◌then◌else◌,
  ltb, arith,
}
use lab_remote_go.Ssh.Connection.{
  Runtime, new_runtime, Action, invalidate, invalidate_if, close_next, ends, notices_end, Event,
  by_connect, by_other, mark_ended, without, invalidate_client, invalidate_client_if, close_first,
  watch_client, act, step, run,
}
use lab_remote_go.Ssh.Connection.Owning.{
  IsClosing, Owned, in_use, held, closed_soon, at_end, Sound, without-client, moved,
  also_closing-rest, also_closing-first, emptied-IsPlaced, without-IsPlaced, invalidate_if-Sound,
  mark_ended-kept, mark_ended_self,
}
use lab_remote_go.Ssh.Connection.Connecting.{connect_step-Sound}

act-Sound : (a : Action) (r : Runtime) → Sound r → Sound (act a r)
unfolding act invalidate_client watch_client
act-Sound invalidate r s = record {
  placed = emptied-IsPlaced r r.flight ((r.generation + 1) % 2 ^ 64) none (inl refl) s.placed;
  owned = λ c lt.
      moved (λ u. closed_soon (also_closing-first r.client r.closing u)) held
        (λ q. closed_soon (also_closing-rest c r.client r.closing q)) at_end (s.owned c lt);
}
act-Sound (invalidate_if d) r s = guarded (ltb d r.created)
  where
    guarded : (b : Bool) → Sound (if b then invalidate_client_if d r else r)
    guarded true = invalidate_if-Sound d r s
    guarded false = s
act-Sound close_next r s = first r.closing refl
  where
    first : (closing : List ℕ) → r.closing ≡ closing → Sound (close_first closing r)
    first [] e = s
    first (d ∷ closing) e = record {
      placed = s.placed;
      owned = λ c lt.
          moved in_use held
            (λ q. elim (subst (λ l. IsClosing c l) e q) [
              | inl same ↦ at_end (mark_ended_self c d r.ended same)
              | inr later ↦ closed_soon later
            ])
            (λ o. at_end (mark_ended-kept c d r.ended o)) (s.owned c lt);
    }
act-Sound (ends d) r s = guarded (ltb d r.created)
  where
    guarded : (b : Bool) → Sound (if b then record r { ended = mark_ended d r.ended } else r)
    guarded true = record {
      placed = s.placed;
      owned = λ c lt.
          moved in_use held closed_soon (λ o. at_end (mark_ended-kept c d r.ended o))
            (s.owned c lt);
    }
    guarded false = s
act-Sound (notices_end d) r s = guarded (r.ended d) refl
  where
    guarded :
        (b : Bool)
        → r.ended d ≡ b
        → Sound (if b then record r { client = without d r.client } else r)
    guarded false e = s
    guarded true e = record {
      placed = without-IsPlaced d r s;
      owned = λ c lt.
          moved
            (λ u. elim (without-client c d r.client u) [
              | inl kept ↦ in_use kept
              | inr same ↦ at_end (rw same e)
            ])
            held closed_soon at_end (s.owned c lt);
    }

step-Sound : (event : Event) (r : Runtime) → Sound r → Sound (step event r)
unfolding step
step-Sound (by_connect s) r h = connect_step-Sound r.flight s r refl h
step-Sound (by_other a) r h = act-Sound a r h

pub run-Sound : (events : List Event) (r : Runtime) → Sound r → Sound (run events r)
unfolding run
run-Sound [] r h = h
run-Sound (event ∷ events) r h = run-Sound events (step event r) (step-Sound event r h)

-- Every client that was made is in use, held by the connect that made it, about to be closed, or at its
-- end: none is forgotten while it is open.
pub run-Owned :
    (events : List Event) (c : ℕ)
    → c < (run events new_runtime).created
    → Owned c (run events new_runtime)
run-Owned events c lt =
    let sound : Sound (run events new_runtime) =
      run-Sound events new_runtime
        (record { placed = tt; owned = λ d small. absurd (omega arith) }) in
    sound.owned c lt
