-- ===== src/Vpn/States.antt =====
-- internal/vpn/state_machine.go with the states of internal/model/status.go: the published status of
-- each profile. A time is a number that the caller passes in.
pub mod Laws
use Prim.Native.String.{String}
use lab_remote_go.Common.{
  ℕ, Bool, true, false, ◌||◌, List, [], ◌∷◌, ◌++◌, Option, none, some, if◌then◌else◌,
}
use lab_remote_go.Common.Maps.{GoMap, make_map, set_key, str_eq}

-- `unset` is the empty string of a zero status.
pub data VpnState : Type 0 where
  unset disconnected not_required preparing dialing connected reconnecting disconnecting failed :
      VpnState

pub record VpnStatus : Type 0 where
  pub profile_id : String
  pub state : VpnState
  pub error_code : String
  pub ip_address : String
  pub interface : String
  pub route_ready : Bool
  pub reference_num : ℕ
  pub updated_at : ℕ

abbrev pub zero_status : VpnStatus
zero_status = record {
  profile_id = "";
  state = unset;
  error_code = "";
  ip_address = "";
  interface = "";
  route_ready = false;
  reference_num = 0;
  updated_at = 0;
}

-- `emitted` is what went to the event sink as "vpn:status", the oldest first.
pub record StateMachine : Type 0 where
  pub statuses : GoMap VpnStatus
  pub emitted : List VpnStatus

abbrev pub new_state_machine : StateMachine
new_state_machine = record { statuses = make_map; emitted = [] }

-- `s.statuses[profileID]`, the zero status on a missing key
abbrev pub or_zero : Option VpnStatus → VpnStatus
or_zero none = zero_status
or_zero (some status) = status

abbrev pub publish : String → VpnStatus → StateMachine → StateMachine
publish id status s = record {
  statuses = set_key id status s.statuses;
  emitted = s.emitted ++ (status ∷ []);
}

unfoldable pub set_status : StateMachine → ℕ → String → VpnState → String → StateMachine × VpnStatus
set_status s now id state error_code =
    let status : VpnStatus = record (or_zero (s.statuses id)) {
      profile_id = id;
      state = state;
      error_code = error_code;
      updated_at = now;
    } in
    (publish id status s, status)

abbrev pub disconnected_if_unset : VpnState → VpnState
disconnected_if_unset unset = disconnected
disconnected_if_unset state = state

unfoldable pub update_status :
    StateMachine → ℕ → String → (VpnStatus → VpnStatus) → StateMachine × VpnStatus
update_status s now id update =
    let old : VpnStatus = or_zero (s.statuses id) in
    let status : VpnStatus =
      record (update (record old { profile_id = id; state = disconnected_if_unset old.state })) {
        updated_at = now;
      } in
    (publish id status s, status)

unfoldable pub get_status : StateMachine → ℕ → String → VpnStatus
get_status s now id = elim (s.statuses id) [
  | none ↦ record zero_status { profile_id = id; state = disconnected; updated_at = now }
  | some status ↦ status
]

-- the table of `validTransition`; equal states are allowed before it is read
abbrev pub allowed : VpnState → VpnState → Bool
allowed disconnected preparing = true
allowed disconnected not_required = true
allowed not_required disconnected = true
allowed preparing dialing = true
allowed preparing failed = true
allowed dialing connected = true
allowed dialing failed = true
allowed connected disconnecting = true
allowed connected reconnecting = true
allowed connected failed = true
allowed reconnecting connected = true
allowed reconnecting failed = true
allowed disconnecting disconnected = true
allowed disconnecting failed = true
allowed failed preparing = true
allowed failed disconnected = true
allowed _ _ = false

abbrev pub same_state : VpnState → VpnState → Bool
same_state unset unset = true
same_state disconnected disconnected = true
same_state not_required not_required = true
same_state preparing preparing = true
same_state dialing dialing = true
same_state connected connected = true
same_state reconnecting reconnecting = true
same_state disconnecting disconnecting = true
same_state failed failed = true
same_state _ _ = false

unfoldable pub valid_transition : VpnState → VpnState → Bool
valid_transition from to = same_state from to || allowed from to
