-- ===== src/Vpn/Access.antt =====
-- internal/vpn/isolated_manager.go: what a connection may be dialed to, the acceptance of the server's
-- certificate, and the status that is shown. The profiles are those of the repository's file.
pub mod Targets
pub mod Pins
mod Tests
use Prim.Native.String.{String}
use lab_remote_go.Common.{
  ℕ, Bool, true, false, not, ◌&&◌, ◌||◌, List, [], ◌∷◌, ◌++◌, Option, none, some, if◌then◌else◌,
}
use lab_remote_go.Common.Maps.{GoMap, make_map, set_key, delete_key, str_eq}
use lab_remote_go.Common.Results.{Result, err, ok, ◌>>=◌, ◌>>◌, fail_if}
use lab_remote_go.Common.Texts.{Text, text_eq, member}
use lab_remote_go.Model.Errors.{AppError, new_app_error}
use lab_remote_go.Model.Files.{Disk}
use lab_remote_go.Model.Profiles.{ConnectionProfile, uses_isolated_tunnel, validate, trim_brackets}
use lab_remote_go.Mcp.Auth.{itoa}
use lab_remote_go.Profile.Repository.{RepositoryError, app, Profiles, get_profile, upsert_profile}
use lab_remote_go.Vpn.States.{VpnStatus, StateMachine, get_status}
use lab_remote_go.Vpn.Isolated.{direct_status}

abbrev pub lift_check : Result AppError (Unit {0}) → Result RepositoryError (Unit {0})
lift_check (err e) = err (app e)
lift_check (ok u) = ok u

-- `m.repository.Get` and `value.Validate`
unfoldable pub valid_profile : Disk → String → Profiles → Result RepositoryError ConnectionProfile
valid_profile disk id file =
    get_profile disk id file >>= λ value. (lift_check (validate value) >> ok value)

-- `net.JoinHostPort`
abbrev pub host_port : Text → Text → Text
host_port host port =
    if member 58 host then (91 ∷ host) ++ (93 ∷ 58 ∷ port) else host ++ (58 ∷ port)

-- "tcp" and "tcp4"
abbrev pub is_tcp : Text → Bool
is_tcp network = text_eq network (116 ∷ 99 ∷ 112 ∷ []) || text_eq network (116 ∷ 99 ∷ 112 ∷ 52 ∷ [])

abbrev pub ssh_target : ConnectionProfile → Text
ssh_target value = host_port (trim_brackets value.ssh.server_address) (itoa value.ssh.port)

-- What `DialContext` does next: it dials from the host, or through the link.
pub data Route : Type 0 where
  from_host : Text → Text → Route
  through_link : ℕ → Text → Route

abbrev pub through : Option ℕ → Text → Result RepositoryError Route
through none address = err (app (new_app_error "TUNNEL_NOT_CONNECTED" "tunnel_dial" true))
through (some link) address = ok (through_link link address)

abbrev pub route_of : Option ℕ → Text → Text → ConnectionProfile → Result RepositoryError Route
route_of link network address value =
    if not (text_eq address (ssh_target value)) || not (is_tcp network)
    then err (app (new_app_error "TUNNEL_TARGET_DENIED" "connection_policy" false))
    else if not (uses_isolated_tunnel value)
    then ok (from_host network address)
    else through link address

-- `DialContext`, with the link of the profile's runtime
unfoldable pub dial_context :
    Disk → String → Profiles → Option ℕ → Text → Text → Result RepositoryError Route
dial_context disk id file link network address =
    valid_profile disk id file >>= route_of link network address

-- the file of profiles and the certificates that wait to be confirmed
pub record Certificates : Type 0 where
  pub file : Profiles
  pub pending : GoMap String

-- `m.pending[profileID]`, the empty string on a missing key
abbrev pub or_empty : Option String → String
or_empty none = ""
or_empty (some s) = s

abbrev pub pinned : ℕ → String → ConnectionProfile → ConnectionProfile
pinned now fingerprint value = record value {
  vpn = record value.vpn { server_certificate = fingerprint };
  updated_at = now;
}

module _ (fold : ℕ → ℕ) where
  abbrev pub after_upsert :
      String
      → Certificates
      → Profiles × Result RepositoryError (Unit {0})
      → Certificates × Result RepositoryError (Unit {0})
  after_upsert id c (file, err e) = (record c { file = file }, err e)
  after_upsert id c (file, ok u) = (record { file = file; pending = delete_key id c.pending }, ok u)

  abbrev pub accept_for :
      Disk
      → ℕ
      → String
      → String
      → Certificates
      → Result RepositoryError ConnectionProfile
      → Certificates × Result RepositoryError (Unit {0})
  accept_for disk now id fingerprint c (err e) = (c, err e)
  accept_for disk now id fingerprint c (ok value) =
      let waiting = or_empty (c.pending id) in
      if not (uses_isolated_tunnel value)
      then (c, err (app (new_app_error "TUNNEL_NOT_REQUIRED" "tunnel_certificate" false)))
      else if str_eq waiting "" || not (str_eq waiting fingerprint)
      then (c, err (app (new_app_error "TUNNEL_CERT_UNKNOWN" "tunnel_certificate" false)))
      else after_upsert id c (upsert_profile fold disk (pinned now fingerprint value) c.file)

  -- `AcceptCertificate`
  unfoldable pub accept_certificate :
      Disk → ℕ → String → String → Certificates → Certificates × Result RepositoryError (Unit {0})
  accept_certificate disk now id fingerprint c =
      accept_for disk now id fingerprint c (get_profile disk id c.file)

-- `Status`
unfoldable pub shown_status :
    Disk → ℕ → String → Profiles → StateMachine → Result RepositoryError VpnStatus
shown_status disk now id file states = valid_profile disk id file >>= λ value. ok (
    if not (uses_isolated_tunnel value)
    then direct_status (get_status states now id)
    else get_status states now id)
