-- ===== src/Vpn/Isolated/Tests.antt =====
-- Runs and witnesses for the isolated tunnel.
use lab_remote_go.Common.{ℕ, ◌<◌, ◌≡◌, ◌⊎◌, refl, true, false, List, [], ◌∷◌, none, some, arith}
use lab_remote_go.Vpn.States.{new_state_machine, connected, get_status, set_status, update_status}
use lab_remote_go.Vpn.Isolated.{
  Tunnel, resting, holding, connect_enter, connect_secret, connect_linked, connect_commit,
  connect_publish, disconnect_take,
}
use lab_remote_go.Vpn.Isolated.Events.{
  Event, enter, secret, linked, commit, publish_connected, take_link, finish, react, step, run,
}
use lab_remote_go.Vpn.Isolated.Owners.{NoLeak, run_keeps_links}
use lab_remote_go.Vpn.Isolated.Races.{stale_connected}
use lab_remote_go.Vpn.Isolated.Cancelled.{disconnect_cancels}

abbrev idle : Tunnel
idle = record {
  generation = 0;
  link = none;
  states = new_state_machine;
  pending = none;
  ended = λ l. false;
  created = 0;
  flight = resting;
  closing = [];
}

abbrev life : List Event
life = enter true 1 ∷ secret true 2 ∷ linked ∷ commit false ∷ publish_connected "10.0.0.2" 3 ∷ []

life_connects :
    let t = run "p" life idle in
    (t.link ≡ some 0) × (t.flight ≡ resting) × ((get_status t.states 9 "p").state ≡ connected)
unfolding run step react connect_enter connect_secret connect_linked connect_commit connect_publish
    set_status update_status get_status
life_connects = (refl, refl, refl)

idle-NoLeak : NoLeak idle
idle-NoLeak = record { accounted = λ l h. absurd (omega arith); vacant = λ e. refl }

run_keeps_links_example : ((run "p" life idle).ended 0 ≡ true) ⊎ ((run "p" life idle).link ≡ some 0)
unfolding run step react connect_enter connect_secret connect_linked connect_commit connect_publish
run_keeps_links_example = run_keeps_links "p" life idle idle-NoLeak refl refl 0 (omega arith)

abbrev too_late : List Event
too_late = linked ∷ commit false ∷ finish true 5 ∷ []

disconnect_cancels_example :
    let t =
      run "p" too_late (disconnect_take "p" (run "p" (enter true 1 ∷ secret true 2 ∷ []) idle)) in
    (t.link ≡ none)
    × (t.flight ≡ resting → t.closing ≡ [] → (l : ℕ) → l < t.created → t.ended l ≡ true)
disconnect_cancels_example =
    disconnect_cancels "p" idle (enter true 1 ∷ secret true 2 ∷ []) too_late idle-NoLeak refl
      (tt, (tt, (tt, tt))) (omega arith)

abbrev holding_tunnel : Tunnel
holding_tunnel = record idle { created = 1; flight = holding 0 0 }

stale_connected_example :
    let t =
      run "p"
        (commit false ∷ take_link ∷ finish true 1 ∷ publish_connected "10.0.0.2" 2 ∷ [])
        holding_tunnel in
    (t.link ≡ none)
    × (t.ended 0 ≡ true)
    × (t.flight ≡ resting)
    × ((get_status t.states 3 "p").state ≡ connected)
stale_connected_example = stale_connected "p" holding_tunnel 0 0 1 2 3 "10.0.0.2" refl refl refl
