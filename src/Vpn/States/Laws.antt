-- ===== src/Vpn/States/Laws.antt =====
-- What the status map keeps.
use Prim.Native.String.{String}
use lab_remote_go.Common.{ℕ, ◌≡◌, refl, ◌≢◌, arith}
use lab_remote_go.Common.Maps.{str_eq_iff, str_eq_refl}
use lab_remote_go.Vpn.States.{VpnState, StateMachine, set_status, get_status}

-- A status that was set is read back for its profile, and no other profile's status changes.
pub get_status-set_status :
    (s : StateMachine) (now later : ℕ) (id other : String) (state : VpnState) (code : String)
    → let (s', status) = set_status s now id state code in
      (get_status s' later id ≡ status)
      × (status.state ≡ state)
      × (status.error_code ≡ code)
      × (id ≢ other → get_status s' later other ≡ get_status s later other)
unfolding get_status set_status
get_status-set_status s now later id other state code =
    (ground (arith, str_eq_refl id), refl, refl, λ ne. ground (arith, str_eq_iff id other))
