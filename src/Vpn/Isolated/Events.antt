-- ===== src/Vpn/Isolated/Events.antt =====
-- The interleavings of `Connect`, `Disconnect`, the watchers and the network, as a sequence of events.
-- An event that does not fit the flight changes nothing.
use Prim.Native.String.{String}
use lab_remote_go.Common.{ℕ, Bool, List, [], ◌∷◌, Option, if◌then◌else◌, ltb}
use lab_remote_go.Vpn.Isolated.{
  Flight, resting, starting, holding, installed, Tunnel, OpenError, mark_ended, connect_refused,
  connect_enter, connect_secret, connect_open_failed, connect_link_failed, connect_linked,
  connect_commit, connect_publish, disconnect_take, disconnect_finish, watch,
}

pub data Event : Type 0 where
  refused : ℕ → String → Event
  enter : Bool → ℕ → Event
  secret : Bool → ℕ → Event
  open_failed : OpenError → ℕ → Event
  link_failed : ℕ → Event
  linked : Event
  commit : Bool → Event
  publish_connected : String → ℕ → Event
  take_link : Event
  finish : Bool → ℕ → Event
  watcher : ℕ → Bool → ℕ → Event
  link_ends : ℕ → Event

module _ (id : String) where
  unfoldable pub finish_first : Bool → ℕ → List (Option ℕ) → Tunnel → Tunnel
  finish_first uses_tunnel now [] t = t
  finish_first uses_tunnel now (taken ∷ closing) t =
      disconnect_finish id uses_tunnel now taken (record t { closing = closing })

  -- The watcher of `l` acts once `l` has ended.
  unfoldable pub react : Flight → Event → Tunnel → Tunnel
  react resting (enter uses_tunnel now) t = connect_enter id uses_tunnel now t
  react (starting g) (secret found now) t = connect_secret id found now t
  react (starting g) (open_failed e now) t = connect_open_failed id e now t
  react (starting g) (link_failed now) t = connect_link_failed id now t
  react (starting g) linked t = connect_linked id g t
  react (holding g l) (commit ctx_done) t = connect_commit id g l ctx_done t
  react (installed l) (publish_connected address now) t = connect_publish id address now t
  react flight (refused now code) t = connect_refused id now code t
  react flight take_link t = disconnect_take id t
  react flight (finish uses_tunnel now) t = finish_first uses_tunnel now t.closing t
  react flight (watcher l by_close now) t = if t.ended l then watch id l by_close now t else t
  react flight (link_ends l) t =
      if ltb l t.created then record t { ended = mark_ended l t.ended } else t
  react flight event t = t

  unfoldable pub step : Event → Tunnel → Tunnel
  step event t = react t.flight event t

  unfoldable pub run : List Event → Tunnel → Tunnel
  run [] t = t
  run (event ∷ events) t = run events (step event t)
