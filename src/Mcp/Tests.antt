-- ===== src/Mcp/Tests.antt =====
-- Witnesses for the MCP server's checks.
use lab_remote_go.Common.{◌+◌, ◌*◌, ◌≤◌, ◌≡◌, ◌≢◌, ◌⊎◌, refl, true, false, [], ◌∷◌, ◌++◌, arith}
use lab_remote_go.Common.Texts.{Text}
use lab_remote_go.Model.Profiles.{ConnectionProfile, direct_ssh, softether, auth_unset}
use lab_remote_go.Mcp.Auth.{
  RateLimiter, new_rate_limiter, minute, itoa, Request, no_origin, local_name, loopback_name,
  join_host_port, bearer, security_middleware, served, allow, itoa_digits,
}
use lab_remote_go.Mcp.Auth.Limiter.{admitted, admitted-bound}
use lab_remote_go.Mcp.Auth.Gate.{LocalOrigin, security_middleware-served}

abbrev profile : ConnectionProfile
profile = record {
  id = "p";
  display_name = 112 ∷ [];
  group = [];
  connection_mode = direct_ssh;
  vpn = record {
    connection_name = [];
    server_address = [];
    server_port = 0;
    hub_name = [];
    server_certificate = "";
    type = softether;
    username = [];
    credential_ref = "";
    split_tunnel = false;
  };
  ssh = record {
    server_address = 97 ∷ [];
    port = 22;
    username = 117 ∷ [];
    auth_method = auth_unset;
    credential_ref = "";
    host_key = "";
  };
  mcp_policy = record {
    enabled_for_profile = true;
    allow_exec = true;
    allow_interactive = false;
    allow_file_upload = false;
    allow_file_download = false;
    allow_disconnect = false;
  };
  created_at = 0;
  updated_at = 0;
}

abbrev limiter : RateLimiter
limiter = new_rate_limiter 0 1

admitted-bound_example : admitted (5 ∷ minute ∷ (minute + 1) ∷ []) limiter ≤ 2 * 1
admitted-bound_example =
    admitted-bound (5 ∷ minute ∷ (minute + 1) ∷ []) 5 limiter
      ((omega arith, omega arith), ((omega arith, omega arith), ((omega arith, omega arith), tt)))

abbrev token : Text
token = 116 ∷ []

abbrev request : Request
request = record {
  remote_loopback = true;
  host = join_host_port local_name (56 ∷ 48 ∷ []);
  origin = no_origin;
  authorization = bearer ++ token;
}

abbrev same_case : Text → Text
same_case s = s

request_served : (security_middleware same_case 5 token 80 request limiter).1 ≡ served
unfolding security_middleware itoa itoa_digits allow
request_served = refl

security_middleware-served_example :
    let (l, response) = security_middleware same_case 5 token 80 request limiter in
    let bearer_token : Text = (66 ∷ 101 ∷ 97 ∷ 114 ∷ 101 ∷ 114 ∷ 32 ∷ []) ++ token in
    (response ≡ served
      → (request.remote_loopback ≡ true)
        × ((request.host ≡ loopback_name ++ (58 ∷ itoa 80))
            ⊎ (request.host ≡ local_name ++ (58 ∷ itoa 80)))
        × LocalOrigin same_case request.origin
        × (request.authorization ≡ bearer_token)
        × ((allow 5 limiter).1 ≡ true))
    × (request.authorization ≢ bearer_token → (response ≢ served) × (l ≡ limiter))
security_middleware-served_example = security_middleware-served same_case 5 token 80 request limiter
