-- ===== src/Model/Profiles.antt =====
-- internal/model/profile.go: a connection profile and its validation. Texts that are looked into are
-- code points; identifiers, references and times are only stored and compared.
pub mod Validation
mod Tests
use Prim.Native.String.{String}
use lab_remote_go.Common.{
  ℕ, Bool, true, false, not, ◌&&◌, ◌||◌, List, [], ◌∷◌, if◌then◌else◌, ltb, leb, ◌==◌, length,
}
use lab_remote_go.Common.Results.{Result, err, ok, ◌>>◌, fail_if}
use lab_remote_go.Common.Texts.{
  Text, is_empty, trim, trim_space, utf8_length, contains_any, split_on, first_is, last_is,
}
use lab_remote_go.Model.Errors.{AppError, new_app_error}
use lab_remote_go.Model.Addresses.{is_ip, all_chars, is_digit}

-- the strings of the enumerations; any other text may be read from a file
pub data ConnectionMode : Type 0 where
  mode_unset isolated_tunnel direct_ssh : ConnectionMode
  mode_other : Text → ConnectionMode

pub data VpnType : Type 0 where
  l2tp_psk softether pptp sstp ikev2 : VpnType
  type_other : Text → VpnType

pub data SshAuthMethod : Type 0 where
  auth_unset auth_password auth_private_key : SshAuthMethod
  auth_other : Text → SshAuthMethod

pub record VpnConfig : Type 0 where
  pub connection_name : Text
  pub server_address : Text
  pub server_port : ℕ
  pub hub_name : Text
  pub server_certificate : String
  pub type : VpnType
  pub username : Text
  pub credential_ref : String
  pub split_tunnel : Bool

pub record SshConfig : Type 0 where
  pub server_address : Text
  pub port : ℕ
  pub username : Text
  pub auth_method : SshAuthMethod
  pub credential_ref : String
  pub host_key : String

pub record McpPolicy : Type 0 where
  pub enabled_for_profile : Bool
  pub allow_exec : Bool
  pub allow_interactive : Bool
  pub allow_file_upload : Bool
  pub allow_file_download : Bool
  pub allow_disconnect : Bool

pub record ConnectionProfile : Type 0 where
  pub id : String
  pub display_name : Text
  pub group : Text
  pub connection_mode : ConnectionMode
  pub vpn : VpnConfig
  pub ssh : SshConfig
  pub mcp_policy : McpPolicy
  pub created_at : ℕ
  pub updated_at : ℕ

unfoldable pub effective_auth_method : SshAuthMethod → SshAuthMethod
effective_auth_method auth_unset = auth_password
effective_auth_method method = method

unfoldable pub effective_connection_mode : ConnectionMode → ConnectionMode
effective_connection_mode mode_unset = isolated_tunnel
effective_connection_mode mode = mode

abbrev pub is_direct : ConnectionMode → Bool
is_direct direct_ssh = true
is_direct mode = false

abbrev pub is_isolated : ConnectionMode → Bool
is_isolated isolated_tunnel = true
is_isolated mode = false

unfoldable pub uses_isolated_tunnel : ConnectionProfile → Bool
uses_isolated_tunnel p = not (is_direct (effective_connection_mode p.connection_mode))

-- " \\/'\"`;$|&<>"
abbrev pub forbidden_in_host : Text
forbidden_in_host = 32 ∷ 92 ∷ 47 ∷ 39 ∷ 34 ∷ 96 ∷ 59 ∷ 36 ∷ 124 ∷ 38 ∷ 60 ∷ 62 ∷ []

abbrev pub is_host_char : ℕ → Bool
is_host_char r = (leb 97 r && leb r 122) || ((leb 65 r && leb r 90) || (is_digit r || r == 45))

abbrev pub label_valid : Text → Bool
label_valid label =
    not (is_empty label || (ltb 63 (utf8_length label) || (first_is 45 label || last_is 45 label)))
    && all_chars is_host_char label

abbrev pub labels_valid : List Text → Bool
labels_valid [] = true
labels_valid (label ∷ rest) = label_valid label && labels_valid rest

-- `strings.Trim(value, "[]")`
abbrev pub trim_brackets : Text → Text
trim_brackets value = trim (λ c. c == 91 || c == 93) value

unfoldable pub valid_host : Text → Bool
valid_host text =
    let value = trim_space text in
    if is_empty value || (ltb 253 (utf8_length value) || contains_any value forbidden_in_host)
    then false
    else if is_ip (trim_brackets value)
    then true
    else labels_valid (split_on 46 value)

abbrev pub profile_invalid : AppError
profile_invalid = new_app_error "PROFILE_INVALID" "profile" false

abbrev pub bad_name : Text → Bool
bad_name name = is_empty (trim_space name) || ltb 64 (length name)

abbrev pub supported_type : VpnType → Bool
supported_type softether = true
supported_type l2tp_psk = true
supported_type type = false

abbrev pub supported_auth : SshAuthMethod → Bool
supported_auth auth_password = true
supported_auth auth_private_key = true
supported_auth method = false

abbrev pub validate_tunnel : VpnConfig → Result AppError (Unit {0})
validate_tunnel vpn = do
  fail_if (bad_name vpn.connection_name) profile_invalid
  fail_if (not (valid_host vpn.server_address)) profile_invalid
  fail_if (not (supported_type vpn.type)) profile_invalid
  fail_if (is_empty (trim_space vpn.username)) profile_invalid
  fail_if (not vpn.split_tunnel) profile_invalid

abbrev pub validate_ssh : SshConfig → Result AppError (Unit {0})
validate_ssh ssh = do
  fail_if (not (valid_host ssh.server_address)) profile_invalid
  fail_if (ssh.port == 0) profile_invalid
  fail_if (is_empty (trim_space ssh.username)) profile_invalid
  fail_if (not (supported_auth (effective_auth_method ssh.auth_method))) profile_invalid

unfoldable pub validate : ConnectionProfile → Result AppError (Unit {0})
validate p = do
  fail_if (bad_name p.display_name) profile_invalid
  let mode = effective_connection_mode p.connection_mode
  fail_if (not (is_isolated mode || is_direct mode)) profile_invalid
  if is_isolated mode then validate_tunnel p.vpn else ok tt
  validate_ssh p.ssh
