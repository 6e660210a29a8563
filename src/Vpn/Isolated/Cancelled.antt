-- ===== src/Vpn/Isolated/Cancelled.antt =====
-- A `Disconnect` also cancels the connect that is in flight, whatever runs in between.
use Prim.Native.String.{String}
use mathlib.Core.Path.{subst}
use lab_remote_go.Common.{
  ℕ, ◌+◌, ◌^◌, ◌<◌, ◌≤◌, ◌≡◌, refl, sym, ◌∙◌, inl, inr, Bool, true, false, List, [], ◌∷◌, none, ltb,
  length, arith,
}
use lab_remote_go.Vpn.Isolated.{
  Flight, resting, starting, holding, installed, Tunnel, connect_refused, connect_enter,
  connect_secret, connection_error, connect_open_failed, connect_link_failed, connect_linked,
  connect_commit, connect_publish, disconnect_take, disconnect_finish, watch,
}
use lab_remote_go.Vpn.Isolated.Events
use lab_remote_go.Vpn.Isolated.Owners.{NoLeak, run_keeps_links, run-NoLeak, step-NoLeak}

-- A new `Connect` is no part of the events.
abbrev pub NotEnter : Events.Event → Type 0
NotEnter (Events.enter uses_tunnel now) = ⊥
NotEnter event = Unit {0}

abbrev pub NoneEnters : List Events.Event → Type 0
NoneEnters [] = Unit {0}
NoneEnters (event ∷ events) = NotEnter event × NoneEnters events

-- The connect in flight, up to its locked section, has read a generation below `n`.
abbrev behind : ℕ → Flight → Bool
behind n (starting g) = ltb g n
behind n (holding g l) = ltb g n
behind n flight = true

module _ (id : String) where
  react-bounded :
      (f : Flight) (e : Events.Event) (t : Tunnel)
      → t.flight ≡ f
      → t.generation + 1 < 2 ^ 64
      → behind (t.generation + 1) f ≡ true
      → let t' = Events.react id f e t in
        (behind (t'.generation + 1) t'.flight ≡ true) × (t'.generation ≤ t.generation + 1)
  unfolding Events.react Events.finish_first connect_refused connect_enter connect_secret
      connection_error connect_open_failed connect_link_failed connect_linked connect_commit
      connect_publish disconnect_take disconnect_finish watch
  react-bounded resting (Events.enter true now) t e small h = ground arith
  react-bounded resting (Events.enter false now) t e small h = ground arith
  react-bounded f event t e small h = ground arith

  react-stale :
      (f : Flight) (e : Events.Event) (t : Tunnel)
      → t.flight ≡ f
      → NotEnter e
      → t.generation + 1 < 2 ^ 64
      → t.link ≡ none
      → behind t.generation f ≡ true
      → let t' = Events.react id f e t in
        (t'.link ≡ none)
        × (behind t'.generation t'.flight ≡ true)
        × (t'.generation ≤ t.generation + 1)
  unfolding Events.react Events.finish_first connect_refused connect_enter connect_secret
      connection_error connect_open_failed connect_link_failed connect_linked connect_commit
      connect_publish disconnect_take disconnect_finish watch
  react-stale resting (Events.enter uses_tunnel now) t e n small link h = absurd n
  react-stale f event t e n small link h = ground arith

  run-bounded :
      (events : List Events.Event) (t : Tunnel)
      → t.generation + length events < 2 ^ 64
      → behind (t.generation + 1) t.flight ≡ true
      → let t' = Events.run id events t in
        (behind (t'.generation + 1) t'.flight ≡ true)
        × (t'.generation ≤ t.generation + length events)
  unfolding Events.run Events.step
  run-bounded [] t small h = (h, omega arith)
  run-bounded (event ∷ events) t small h =
      let (now, little) = react-bounded t.flight event t refl (omega arith) h in
      let (later, bound) =
        run-bounded events (Events.step id event t) (omega (arith, little)) now in
      (later, omega (arith, little, bound))

  run-stale :
      (events : List Events.Event) (t : Tunnel)
      → NoneEnters events
      → t.generation + length events < 2 ^ 64
      → t.link ≡ none
      → behind t.generation t.flight ≡ true
      → (Events.run id events t).link ≡ none
  unfolding Events.run Events.step
  run-stale [] t n small link h = link
  run-stale (event ∷ events) t (n, ns) small link h =
      let (link', now, little) = react-stale t.flight event t refl n (omega arith) link h in
      run-stale events (Events.step id event t) ns (omega (arith, little)) link' now

  taken-stale :
      (t : Tunnel)
      → t.generation + 1 < 2 ^ 64
      → behind (t.generation + 1) t.flight ≡ true
      → let t' = disconnect_take id t in
        (t'.link ≡ none)
        × (behind t'.generation t'.flight ≡ true)
        × (t'.generation ≡ t.generation + 1)
  unfolding disconnect_take
  taken-stale t small h = ground arith

  ended-of-quiet :
      (t : Tunnel) (events : List Events.Event)
      → NoLeak t
      → (Events.run id events t).link ≡ none
      → (Events.run id events t).flight ≡ resting
      → (Events.run id events t).closing ≡ []
      → (l : ℕ) → l < (Events.run id events t).created
      → (Events.run id events t).ended l ≡ true
  ended-of-quiet t events leak empty quiet closed l lt =
      elim (run_keeps_links id events t leak quiet closed l lt) [
        | inl over ↦ over
        | inr there ↦ absurd (let clash = sym empty ∙ there in cc)
      ]

  taken-NoLeak : (t : Tunnel) → NoLeak t → NoLeak (disconnect_take id t)
  unfolding Events.step Events.react
  taken-NoLeak t h = subst NoLeak (at t.flight) (step-NoLeak id Events.take_link t h)
    where
      at : (f : Flight) → Events.react id f Events.take_link t ≡ disconnect_take id t
      at resting = refl
      at (starting g) = refl
      at (holding g l) = refl
      at (installed l) = refl

  -- Whatever happened before a `Disconnect` took the lock, and whatever happens after it until a new
  -- `Connect` begins, no link is installed; and once no connect is in flight and every disconnect has
  -- closed what it took, each link that was ever created has ended. That is as long as fewer events
  -- happen than make the generation, a uint64, come round.
  pub disconnect_cancels :
      (t : Tunnel) (before after : List Events.Event)
      → NoLeak t
      → t.flight ≡ resting
      → NoneEnters after
      → t.generation + length before + length after + 1 < 2 ^ 64
      → let t' = Events.run id after (disconnect_take id (Events.run id before t)) in
        (t'.link ≡ none)
        × (t'.flight ≡ resting → t'.closing ≡ [] → (l : ℕ) → l < t'.created → t'.ended l ≡ true)
  disconnect_cancels t before after leak rest n small =
      let u : Tunnel = Events.run id before t in
      let (now, bound) = run-bounded before t (omega arith) (rw rest refl) in
      let (empty, past, grown) = taken-stale u (omega (arith, bound)) now in
      let v : Tunnel = disconnect_take id u in
      let gone = run-stale after v n (omega (arith, bound, grown)) empty past in
      (gone, ended-of-quiet v after (taken-NoLeak u (run-NoLeak id before t leak)) gone)
