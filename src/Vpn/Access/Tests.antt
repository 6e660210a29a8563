-- ===== src/Vpn/Access/Tests.antt =====
-- Witnesses for the targets and the pinned certificates.
use Prim.Native.String.{String}
use lab_remote_go.Common.{ℕ, ◌≡◌, ◌≢◌, refl, true, false, [], ◌∷◌, none, some}
use lab_remote_go.Common.Maps.{make_map, set_key}
use lab_remote_go.Common.Results.{ok}
use lab_remote_go.Common.Texts.{Text}
use lab_remote_go.Model.Files.{Disk}
use lab_remote_go.Model.Addresses.{is_ip, ipv6_groups}
use lab_remote_go.Model.Profiles.{
  ConnectionProfile, isolated_tunnel, direct_ssh, softether, auth_unset, validate, valid_host,
  effective_connection_mode, effective_auth_method, uses_isolated_tunnel,
}
use lab_remote_go.Mcp.Auth.{itoa, itoa_digits}
use lab_remote_go.Profile.Repository.{get_profile, read_profiles, upsert_profile}
use lab_remote_go.Vpn.Access.{
  Certificates, from_host, valid_profile, dial_context, accept_certificate,
}
use lab_remote_go.Vpn.Access.Targets.{Permitted, dial_context-Permitted}
use lab_remote_go.Vpn.Access.Pins.{accept_certificate-pins}

abbrev disk : Disk
disk = record { reads = true; writes = true }

abbrev profile : ConnectionProfile
profile = record {
  id = "p";
  display_name = 112 ∷ [];
  group = [];
  connection_mode = direct_ssh;
  vpn = record {
    connection_name = [];
    server_address = [];
    server_port = 0;
    hub_name = [];
    server_certificate = "";
    type = softether;
    username = [];
    credential_ref = "";
    split_tunnel = false;
  };
  ssh = record {
    server_address = 97 ∷ [];
    port = 22;
    username = 117 ∷ [];
    auth_method = auth_unset;
    credential_ref = "";
    host_key = "";
  };
  mcp_policy = record {
    enabled_for_profile = true;
    allow_exec = true;
    allow_interactive = false;
    allow_file_upload = false;
    allow_file_download = false;
    allow_disconnect = false;
  };
  created_at = 0;
  updated_at = 0;
}

abbrev tunnel_profile : ConnectionProfile
tunnel_profile = record profile {
  connection_mode = isolated_tunnel;
  vpn = record profile.vpn {
    connection_name = 118 ∷ [];
    server_address = 97 ∷ [];
    username = 117 ∷ [];
    split_tunnel = true;
  };
}

-- "tcp" and "a:22"
abbrev tcp : Text
tcp = 116 ∷ 99 ∷ 112 ∷ []

abbrev target : Text
target = 97 ∷ 58 ∷ 50 ∷ 50 ∷ []

dial_context-Permitted_example :
    (p : ConnectionProfile) × (get_profile disk "p" (profile ∷ []) ≡ ok p)
    × (validate p ≡ ok tt)
    × Permitted none target p (from_host tcp target)
unfolding dial_context valid_profile get_profile read_profiles validate valid_host
    effective_connection_mode effective_auth_method uses_isolated_tunnel is_ip ipv6_groups itoa
    itoa_digits
dial_context-Permitted_example =
    dial_context-Permitted disk "p" (profile ∷ []) none tcp target (from_host tcp target) refl

abbrev own : String
own = "p"

abbrev other : String
other = "q"

abbrev fold_none : ℕ → ℕ
fold_none c = c

abbrev waiting : Certificates
waiting = record { file = tunnel_profile ∷ []; pending = set_key "p" "F" make_map }

accept_certificate-pins_example :
    let (c, outcome) = accept_certificate fold_none disk 3 "p" "F" waiting in
    (waiting.pending "p" ≡ some "F")
    × ((p : ConnectionProfile) × (get_profile disk "p" c.file ≡ ok p)
        × (p.vpn.server_certificate ≡ "F"))
    × (c.pending "p" ≡ none)
    × (own ≢ other → get_profile disk "q" c.file ≡ get_profile disk "q" waiting.file)
unfolding accept_certificate upsert_profile get_profile read_profiles validate valid_host
    effective_connection_mode effective_auth_method uses_isolated_tunnel is_ip ipv6_groups
accept_certificate-pins_example = accept_certificate-pins fold_none disk 3 "p" "F" "q" waiting refl
