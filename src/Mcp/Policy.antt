-- ===== src/Mcp/Policy.antt =====
-- internal/policy/mcp_policy.go: the permissions of a profile.
use lab_remote_go.Common.{◌≡◌, ◌↔◌, true, false, not, ◌&&◌, arith}
use lab_remote_go.Common.Results.{Result, ok, ◌>>◌, fail_if}
use lab_remote_go.Model.Errors.{AppError, new_app_error}
use lab_remote_go.Model.Profiles.{ConnectionProfile}

abbrev pub Check : Type 0
Check = ConnectionProfile → Result AppError (Unit {0})

unfoldable pub require_profile : Check
require_profile value =
    fail_if (not value.mcp_policy.enabled_for_profile)
      (new_app_error "MCP_PROFILE_FORBIDDEN" "mcp_policy" false)

abbrev pub tool_forbidden : AppError
tool_forbidden = new_app_error "MCP_TOOL_FORBIDDEN" "mcp_policy" false

unfoldable pub require_exec : Check
require_exec value = do
  require_profile value
  fail_if (not value.mcp_policy.allow_exec) tool_forbidden

unfoldable pub require_interactive : Check
require_interactive value = do
  require_profile value
  fail_if (not value.mcp_policy.allow_interactive) tool_forbidden

unfoldable pub require_file_upload : Check
require_file_upload value = do
  require_profile value
  fail_if (not value.mcp_policy.allow_file_upload) tool_forbidden

unfoldable pub require_file_download : Check
require_file_download value = do
  require_profile value
  fail_if (not value.mcp_policy.allow_file_download) tool_forbidden

unfoldable pub require_disconnect : Check
require_disconnect value = do
  require_profile value
  fail_if (not value.mcp_policy.allow_disconnect) tool_forbidden

-- Each of the five checks passes exactly if the profile is enabled for MCP and has the permission of
-- that check, whatever the other permissions are.
pub require_iff :
    (p : ConnectionProfile)
    → let q = p.mcp_policy in
      ((require_exec p ≡ ok tt) ↔ ((q.enabled_for_profile && q.allow_exec) ≡ true))
      × ((require_interactive p ≡ ok tt) ↔ ((q.enabled_for_profile && q.allow_interactive) ≡ true))
      × ((require_file_upload p ≡ ok tt) ↔ ((q.enabled_for_profile && q.allow_file_upload) ≡ true))
      × ((require_file_download p ≡ ok tt)
          ↔ ((q.enabled_for_profile && q.allow_file_download) ≡ true))
      × ((require_disconnect p ≡ ok tt) ↔ ((q.enabled_for_profile && q.allow_disconnect) ≡ true))
unfolding require_profile require_exec require_interactive require_file_upload require_file_download
    require_disconnect
require_iff p = (ground arith, ground arith, ground arith, ground arith, ground arith)
