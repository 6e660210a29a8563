-- ===== src/Model/Profiles/Tests.antt =====
-- A valid profile, and the witness of its validation.
use lab_remote_go.Common.{◌≡◌, ◌≢◌, refl, true, false, [], ◌∷◌}
use lab_remote_go.Model.Addresses.{is_ip, ipv6_groups}
use lab_remote_go.Model.Profiles.{
  ConnectionProfile, effective_connection_mode, effective_auth_method, uses_isolated_tunnel,
  is_isolated, validate, valid_host, softether, auth_unset, mode_unset,
}
use lab_remote_go.Model.Profiles.Validation.{SafeHost, validate_lem}

-- an old profile without a mode, for the host "a-b.c"
abbrev profile : ConnectionProfile
profile = record {
  id = "p";
  display_name = 112 ∷ [];
  group = [];
  connection_mode = mode_unset;
  vpn = record {
    connection_name = 118 ∷ [];
    server_address = 97 ∷ 45 ∷ 98 ∷ 46 ∷ 99 ∷ [];
    server_port = 0;
    hub_name = [];
    server_certificate = "";
    type = softether;
    username = 117 ∷ [];
    credential_ref = "";
    split_tunnel = true;
  };
  ssh = record {
    server_address = 97 ∷ 45 ∷ 98 ∷ 46 ∷ 99 ∷ [];
    port = 22;
    username = 117 ∷ [];
    auth_method = auth_unset;
    credential_ref = "";
    host_key = "";
  };
  mcp_policy = record {
    enabled_for_profile = true;
    allow_exec = false;
    allow_interactive = false;
    allow_file_upload = false;
    allow_file_download = false;
    allow_disconnect = false;
  };
  created_at = 0;
  updated_at = 0;
}

validate_lem_example :
    SafeHost profile.ssh.server_address
    × (profile.ssh.port ≢ 0)
    × (uses_isolated_tunnel profile ≡ is_isolated (effective_connection_mode mode_unset))
    × (uses_isolated_tunnel profile ≡ true
        → SafeHost profile.vpn.server_address × (profile.vpn.split_tunnel ≡ true))
unfolding validate valid_host effective_connection_mode effective_auth_method is_ip ipv6_groups
validate_lem_example = validate_lem profile refl
