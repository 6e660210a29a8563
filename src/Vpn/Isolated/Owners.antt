-- ===== src/Vpn/Isolated/Owners.antt =====
-- No link is lost: who is responsible for a link at each moment.
use Prim.Native.String.{String}
use lab_remote_go.Common.{
  ◌⊎◌, ℕ, ◌<◌, ◌≡◌, refl, Bool, true, false, ◌||◌, List, [], ◌∷◌, Option, none, some, ◌==◌, arith,
}
use lab_remote_go.Vpn.Isolated.{
  Flight, resting, starting, holding, Tunnel, holds_link, connect_refused, connect_enter,
  connect_secret, connection_error, connect_open_failed, connect_link_failed, connect_linked,
  connect_commit, connect_publish, disconnect_take, disconnect_finish, watch,
}
use lab_remote_go.Vpn.Isolated.Events

abbrev pub flight_holds : ℕ → Flight → Bool
flight_holds l (holding g k) = k == l
flight_holds l _ = false

abbrev pub some_closes : ℕ → List (Option ℕ) → Bool
some_closes l [] = false
some_closes l (taken ∷ closing) = holds_link l taken || some_closes l closing

-- the runtime, the connect in flight or a disconnect has it
abbrev pub owned : Tunnel → ℕ → Bool
owned t l = holds_link l t.link || (flight_holds l t.flight || some_closes l t.closing)

abbrev pub dials : Flight → Bool
dials (starting g) = true
dials (holding g l) = true
dials _ = false

-- Every link that was created has ended or is owned; while a connect dials, no link is installed.
pub record NoLeak (t : Tunnel) : Type 0 where
  pub accounted : (l : ℕ) → l < t.created → (t.ended l || owned t l) ≡ true
  pub vacant : dials t.flight ≡ true → t.link ≡ none

module _ (id : String) where
  react-accounted :
      (f : Flight) (e : Events.Event) (t : Tunnel)
      → t.flight ≡ f
      → NoLeak t
      → (l : ℕ) → l < (Events.react id f e t).created
      → ((Events.react id f e t).ended l || owned (Events.react id f e t) l) ≡ true
  unfolding Events.react Events.finish_first connect_refused connect_enter connect_secret
      connection_error connect_open_failed connect_link_failed connect_linked connect_commit
      connect_publish disconnect_take disconnect_finish watch
  react-accounted resting (Events.enter true now) t e h l lt = ground (arith, h.accounted l)
  react-accounted resting (Events.enter false now) t e h l lt = ground (arith, h.accounted l)
  react-accounted f event t e h l lt = ground (arith, h.accounted l, h.vacant)

  react-vacant :
      (f : Flight) (e : Events.Event) (t : Tunnel)
      → t.flight ≡ f
      → NoLeak t
      → dials (Events.react id f e t).flight ≡ true
      → (Events.react id f e t).link ≡ none
  unfolding Events.react Events.finish_first connect_refused connect_enter connect_secret
      connection_error connect_open_failed connect_link_failed connect_linked connect_commit
      connect_publish disconnect_take disconnect_finish watch
  react-vacant resting (Events.enter true now) t e h d = ground (arith, h.vacant)
  react-vacant resting (Events.enter false now) t e h d = ground (arith, h.vacant)
  react-vacant f event t e h d = ground (arith, h.vacant)

  pub step-NoLeak : (e : Events.Event) (t : Tunnel) → NoLeak t → NoLeak (Events.step id e t)
  unfolding Events.step
  step-NoLeak e t h = record {
    accounted = react-accounted t.flight e t refl h;
    vacant = react-vacant t.flight e t refl h;
  }

  pub run-NoLeak : (es : List Events.Event) (t : Tunnel) → NoLeak t → NoLeak (Events.run id es t)
  unfolding Events.run
  run-NoLeak [] t h = h
  run-NoLeak (e ∷ es) t h = run-NoLeak es (Events.step id e t) (step-NoLeak e t h)

  -- Whatever connects, disconnects, watchers and network failures interleave, once no connect is in
  -- flight and every disconnect has closed what it took, each link that was ever created has ended or
  -- is the one that is installed.
  pub run_keeps_links :
      (es : List Events.Event) (t : Tunnel)
      → NoLeak t
      → (Events.run id es t).flight ≡ resting
      → (Events.run id es t).closing ≡ []
      → (l : ℕ) → l < (Events.run id es t).created
      → ((Events.run id es t).ended l ≡ true) ⊎ ((Events.run id es t).link ≡ some l)
  run_keeps_links es t h quiet closed l lt = ground (arith, (run-NoLeak es t h).accounted l)
