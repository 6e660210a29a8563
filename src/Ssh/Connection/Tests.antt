-- ===== src/Ssh/Connection/Tests.antt =====
-- Witnesses for the SSH client of a profile: a disconnect while a connect dials.
use lab_remote_go.Common.{◌≡◌, refl, false, List, [], ◌∷◌, none, some, arith}
use lab_remote_go.Ssh.Connection.{
  Event, by_connect, by_other, begins, dialed, commits, invalidate, close_next, new_runtime, step,
  run, connect_step, commit,
}
use lab_remote_go.Ssh.Connection.Owning.{Owned}
use lab_remote_go.Ssh.Connection.Owners.{run-Owned}
use lab_remote_go.Ssh.Connection.Cancelled.{invalidate-cancels}

abbrev connected : List Event
connected = by_connect begins ∷ by_connect dialed ∷ by_connect (commits false) ∷ []

connects : (run connected new_runtime).client ≡ some 0
unfolding run step connect_step commit
connects = refl

run-Owned_example : Owned 0 (run connected new_runtime)
unfolding run step connect_step commit
run-Owned_example = run-Owned connected 0 (omega arith)

abbrev too_late : List Event
too_late = by_connect dialed ∷ by_connect (commits false) ∷ by_other close_next ∷ []

invalidate-cancels_example :
    (run too_late (step (by_other invalidate) (run (by_connect begins ∷ []) new_runtime))).client
    ≡ none
invalidate-cancels_example =
    invalidate-cancels (by_connect begins ∷ []) too_late (tt, (tt, (tt, tt))) (omega arith)
