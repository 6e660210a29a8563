-- ===== src/Model/Profiles/Validation.antt =====
-- What a validated profile is safe for.
use lab_remote_go.Common.{◌≡◌, ◌≢◌, refl, true, false, not, ◌||◌, if◌then◌else◌, ◌==◌, arith}
use lab_remote_go.Common.Results.{ok, fail_if-ok, >>-ok, fail_if-passes}
use lab_remote_go.Common.Texts.{Text, is_empty, trim_space, contains_any}
use lab_remote_go.Model.Profiles.{
  VpnConfig, SshConfig, ConnectionProfile, ConnectionMode, mode_unset, isolated_tunnel, direct_ssh,
  mode_other, effective_connection_mode, uses_isolated_tunnel, is_isolated, is_direct, valid_host,
  forbidden_in_host, validate, validate_ssh, validate_tunnel, profile_invalid, bad_name,
  supported_type,
}

-- The host is not empty and has none of the characters that a shell would read.
abbrev pub SafeHost : Text → Type 0
SafeHost text =
    (is_empty (trim_space text) ≡ false)
    × (contains_any (trim_space text) forbidden_in_host ≡ false)

valid_host-SafeHost : (text : Text) → valid_host text ≡ true → SafeHost text
unfolding valid_host
valid_host-SafeHost text h = (ground arith, ground arith)

validate_ssh-ok :
    (s : SshConfig) → validate_ssh s ≡ ok tt → SafeHost s.server_address × (s.port ≢ 0)
validate_ssh-ok s h =
    let (host, h1) = fail_if-ok (not (valid_host s.server_address)) profile_invalid _ h in
    let (port, h2) = fail_if-ok (s.port == 0) profile_invalid _ h1 in
    (valid_host-SafeHost s.server_address (ground arith), λ e. ground arith)

validate_tunnel-ok :
    (v : VpnConfig)
    → validate_tunnel v ≡ ok tt
    → SafeHost v.server_address × (v.split_tunnel ≡ true)
validate_tunnel-ok v h =
    let (name, h1) = fail_if-ok (bad_name v.connection_name) profile_invalid _ h in
    let (host, h2) = fail_if-ok (not (valid_host v.server_address)) profile_invalid _ h1 in
    let (type, h3) = fail_if-ok (not (supported_type v.type)) profile_invalid _ h2 in
    let (user, h4) = fail_if-ok (is_empty (trim_space v.username)) profile_invalid _ h3 in
    let split = fail_if-passes (not v.split_tunnel) profile_invalid h4 in
    (valid_host-SafeHost v.server_address (ground arith), ground arith)

mode-exclusive :
    (mode : ConnectionMode)
    → not (is_isolated mode || is_direct mode) ≡ false
    → not (is_direct mode) ≡ is_isolated mode
mode-exclusive mode_unset h = absurd (cc)
mode-exclusive isolated_tunnel h = refl
mode-exclusive direct_ssh h = refl
mode-exclusive (mode_other t) h = absurd (cc)

-- A profile that validates has an SSH host that, without the space around it, is not empty and has no
-- space or shell characters, and a port; its mode is one of the two known ones; and if it uses the
-- tunnel, the same holds of the tunnel's host, and it carries nothing but the target connection. The
-- space around a host is neither excluded nor removed.
pub validate_lem :
    (p : ConnectionProfile)
    → validate p ≡ ok tt
    → SafeHost p.ssh.server_address
      × (p.ssh.port ≢ 0)
      × (uses_isolated_tunnel p ≡ is_isolated (effective_connection_mode p.connection_mode))
      × (uses_isolated_tunnel p ≡ true
          → SafeHost p.vpn.server_address × (p.vpn.split_tunnel ≡ true))
unfolding validate uses_isolated_tunnel
validate_lem p h =
    let mode = effective_connection_mode p.connection_mode in
    let (name, h1) = fail_if-ok (bad_name p.display_name) profile_invalid _ h in
    let (known, h2) = fail_if-ok (not (is_isolated mode || is_direct mode)) profile_invalid _ h1 in
    let (tunnel, h3) = >>-ok (if is_isolated mode then validate_tunnel p.vpn else ok tt) _ h2 in
    let (host, port) = validate_ssh-ok p.ssh h3 in
    (
      host,
      port,
      mode-exclusive mode known,
      λ uses. validate_tunnel-ok p.vpn (ground (arith, mode-exclusive mode known, tunnel)),
    )
