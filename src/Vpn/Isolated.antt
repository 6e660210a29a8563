-- ===== src/Vpn/Isolated.antt =====
-- internal/vpn/isolated_manager.go: the tunnel of one profile. Each section that holds
-- `runtime.mu`, and each network result, is one function; a connect that waits in between is a
-- `Flight`. Links are numbered in the order of their creation. `connectGate` admits one connect.
pub mod Events
pub mod Owners
pub mod Races
pub mod Cancelled
mod Tests
use Prim.Native.String.{String}
use lab_remote_go.Common.{
  ℕ, ◌+◌, ◌%◌, ◌^◌, Bool, true, false, not, ◌&&◌, ◌||◌, List, [], ◌∷◌, Option, none, some, ◌==◌,
  if◌then◌else◌,
}
use lab_remote_go.Vpn.States.{
  VpnState, VpnStatus, StateMachine, set_status, update_status, get_status, not_required, preparing,
  dialing, connected, disconnecting, disconnected, failed,
}

-- A connect past `connectGate`: it dials with the generation that it read, it holds a new link, or it
-- has installed the link and not yet published the status.
pub data Flight : Type 0 where
  resting : Flight
  starting : ℕ → Flight
  holding : ℕ → ℕ → Flight
  installed : ℕ → Flight

-- `generation` is a uint64. `ended` tells whose `Done` is closed. `closing` holds what each
-- `Disconnect` that has left the lock took out, and has not yet closed.
pub record Tunnel : Type 0 where
  pub generation : ℕ
  pub link : Option ℕ
  pub states : StateMachine
  pub pending : Option String
  pub ended : ℕ → Bool
  pub created : ℕ
  pub flight : Flight
  pub closing : List (Option ℕ)

abbrev pub mark_ended : ℕ → (ℕ → Bool) → ℕ → Bool
mark_ended l ended = λ k. l == k || ended k

-- `if link != nil { link.Close() }`
abbrev pub close_some : Option ℕ → (ℕ → Bool) → ℕ → Bool
close_some none ended = ended
close_some (some l) ended = mark_ended l ended

-- `runtime.link` is the link `l`
abbrev pub holds_link : ℕ → Option ℕ → Bool
holds_link l none = false
holds_link l (some k) = k == l

-- why `softether.Open` failed, as `connectionError` tells it apart
pub data OpenError : Type 0 where
  certificate_unknown : String → OpenError
  certificate_changed : OpenError
  protocol : ℕ → OpenError
  other : OpenError

abbrev pub direct_status : VpnStatus → VpnStatus
direct_status status = record status {
  state = not_required;
  error_code = "";
  ip_address = "";
  interface = "直接 SSH 网络";
  route_ready = true;
}

abbrev pub connected_status : String → VpnStatus → VpnStatus
connected_status address status = record status {
  state = connected;
  error_code = "";
  ip_address = address;
  interface = "LabRemote 用户态网络栈";
  route_ready = true;
}

abbrev pub cleared_status : VpnStatus → VpnStatus
cleared_status status = record status {
  state = disconnected;
  error_code = "";
  ip_address = "";
  interface = "";
  route_ready = false;
}

abbrev pub dropped_status : VpnStatus → VpnStatus
dropped_status status = record status {
  state = failed;
  error_code = "TUNNEL_DISCONNECTED";
  route_ready = false;
}

module _ (id : String) where
  abbrev pub set_state : ℕ → VpnState → String → Tunnel → Tunnel
  set_state now state code t = record t { states = (set_status t.states now id state code).0 }

  abbrev pub update_state : ℕ → (VpnStatus → VpnStatus) → Tunnel → Tunnel
  update_state now f t = record t { states = (update_status t.states now id f).0 }

  -- `Connect` with a repository or a validation error, before the gate
  unfoldable pub connect_refused : ℕ → String → Tunnel → Tunnel
  connect_refused now code t = set_state now failed code t

  -- the locked section of a connect that dials
  abbrev pub begin_dial : ℕ → Tunnel → Tunnel
  begin_dial now t = set_state now preparing "" (record t { flight = starting t.generation })

  abbrev pub enter_tunnel : ℕ → Option ℕ → Tunnel → Tunnel
  enter_tunnel now none t = begin_dial now t
  enter_tunnel now (some l) t = if t.ended l then begin_dial now (record t { link = none }) else t

  -- The gate is taken and the lock held: a direct profile drops its link; a live link is kept; else the
  -- connect goes on with the generation.
  unfoldable pub connect_enter : Bool → ℕ → Tunnel → Tunnel
  connect_enter uses_tunnel now t =
      if uses_tunnel
      then enter_tunnel now t.link t
      else update_state now direct_status
          (record t { link = none; ended = close_some t.link t.ended })

  -- the password is looked up
  unfoldable pub connect_secret : Bool → ℕ → Tunnel → Tunnel
  connect_secret found now t =
      if found
      then set_state now dialing "" t
      else set_state now failed "SECRET_NOT_FOUND" (record t { flight = resting })

  -- `connectionError`
  unfoldable pub connection_error : OpenError → ℕ → Tunnel → Tunnel
  connection_error (certificate_unknown fingerprint) now t =
      set_state now failed "TUNNEL_CERT_UNKNOWN" (record t { pending = some fingerprint })
  connection_error certificate_changed now t = set_state now failed "TUNNEL_CERT_CHANGED" t
  connection_error (protocol code) now t =
      set_state now failed (if code == 9 then "TUNNEL_AUTH_FAILED" else "TUNNEL_CONNECT_FAILED") t
  connection_error other now t = set_state now failed "TUNNEL_CONNECT_FAILED" t

  unfoldable pub connect_open_failed : OpenError → ℕ → Tunnel → Tunnel
  connect_open_failed e now t = connection_error e now (record t { flight = resting })

  unfoldable pub connect_link_failed : ℕ → Tunnel → Tunnel
  connect_link_failed now t =
      set_state now failed "TUNNEL_NETWORK_FAILED" (record t { flight = resting })

  -- `NewLink` returns a link.
  unfoldable pub connect_linked : ℕ → Tunnel → Tunnel
  connect_linked generation t = record t {
    created = t.created + 1;
    flight = holding generation t.created;
  }

  -- The second locked section: a changed generation or a done context gives the link up.
  unfoldable pub connect_commit : ℕ → ℕ → Bool → Tunnel → Tunnel
  connect_commit generation l ctx_done t =
      if not (t.generation == generation) || ctx_done
      then record t { ended = mark_ended l t.ended; flight = resting }
      else record t { link = some l; flight = installed l }

  unfoldable pub connect_publish : String → ℕ → Tunnel → Tunnel
  connect_publish address now t =
      update_state now (connected_status address) (record t { flight = resting })

  -- `Disconnect` under the lock
  unfoldable pub disconnect_take : Tunnel → Tunnel
  disconnect_take t = record t {
    link = none;
    generation = (t.generation + 1) % 2 ^ 64;
    closing = t.link ∷ t.closing;
  }

  -- and after it, with the link that it took
  unfoldable pub disconnect_finish : Bool → ℕ → Option ℕ → Tunnel → Tunnel
  disconnect_finish false now taken t =
      update_state now direct_status (record t { ended = close_some taken t.ended })
  disconnect_finish true now none t = set_state now disconnected "" t
  disconnect_finish true now (some l) t =
      let t' : Tunnel = set_state now disconnecting "" t in
      update_state now cleared_status (record t' { ended = mark_ended l t'.ended })

  -- `watch` after `<-link.Done()`; `by_close` is `errors.Is(link.Err(), net.ErrClosed)`
  unfoldable pub watch : ℕ → Bool → ℕ → Tunnel → Tunnel
  watch l by_close now t =
      if not (holds_link l t.link)
      then t
      else if by_close
      then record t { link = none }
      else update_state now dropped_status (record t { link = none })
