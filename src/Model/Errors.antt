-- ===== src/Model/Errors.antt =====
-- internal/model/errors.go: the application error. The message is for display and is left out.
use Prim.Native.String.{String}
use lab_remote_go.Common.{Bool}

pub record AppError : Type 0 where
  pub code : String
  pub stage : String
  pub retryable : Bool

abbrev pub new_app_error : String → String → Bool → AppError
new_app_error code stage retryable = record { code = code; stage = stage; retryable = retryable }
