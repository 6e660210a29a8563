-- ===== src/Ssh/Jobs.antt =====
-- internal/sshclient/upload.go: the uploads of the manager, from `StartUpload` to `expireUpload`. A job is
-- shared between the table and the goroutine that runs it; each piece that holds a lock is a function.
pub mod Runs
pub mod Active
pub mod Cancelled
mod Tests
use Prim.Native.String.{String}
use lab_remote_go.Common.{
  ℕ, ◌+◌, ◌-◌, Bool, true, false, not, ◌&&◌, ◌||◌, List, [], ◌∷◌, Option, none, some, ltb, leb,
  ◌==◌, if◌then◌else◌,
}
use lab_remote_go.Common.Maps.{str_eq}
use lab_remote_go.Common.Results.{Result, err, ok, ◌>>=◌, ◌>>◌, fail_if}
use lab_remote_go.Common.Texts.{Text, trim_space, is_empty, member, text_eq, utf8_length}
use lab_remote_go.Model.Errors.{AppError, new_app_error}
use lab_remote_go.Ssh.SpeedMeter.{SpeedMeter, new_meter, reset_meter, current_speed, add_bytes}
use lab_remote_go.Ssh.Upload.{Report, gained, lost}

pub data UploadState : Type 0 where
  queued scanning uploading completed failed cancelled : UploadState

pub record UploadRequest : Type 0 where
  pub profile_id : Text
  pub local_paths : List Text
  pub remote_directory : Text
  pub overwrite : Bool
  pub resume : Bool

-- The message of an error is left out.
pub record UploadProgress : Type 0 where
  pub profile_id : Text
  pub state : UploadState
  pub current_item : Text
  pub files_total : ℕ
  pub directories_total : ℕ
  pub bytes_total : ℕ
  pub files_completed : ℕ
  pub directories_completed : ℕ
  pub bytes_transferred : ℕ
  pub bytes_per_second : ℕ
  pub bytes_resumed : ℕ
  pub concurrent_files : ℕ
  pub error_code : String
  pub started_at : ℕ
  pub finished_at : ℕ

-- `ctx_cancelled` is the context's; `last_emit` is `none` before the first event. `past_check` tells that
-- the goroutine has looked at the context for the last time.
pub record UploadJob : Type 0 where
  pub request : UploadRequest
  pub ctx_cancelled : Bool
  pub past_check : Bool
  pub progress : UploadProgress
  pub last_emit : Option ℕ
  pub speed : SpeedMeter

-- what ends an upload: a cancellation, an `AppError`, or any other error
pub data JobError : Type 0 where
  canceled : JobError
  app : AppError → JobError
  other : JobError

abbrev pub upload_state_active : UploadState → Bool
upload_state_active queued = true
upload_state_active scanning = true
upload_state_active uploading = true
upload_state_active _ = false

abbrev pub is_uploading : UploadState → Bool
is_uploading uploading = true
is_uploading _ = false

-- `m.uploads`
abbrev pub Uploads : Type 0
Uploads = List (String × UploadJob)

unfoldable pub find_job : String → Uploads → Option UploadJob
find_job id [] = none
find_job id ((key, job) ∷ rest) =
    let later = find_job id rest in if str_eq key id then some job else later

-- a change of the job behind a key
unfoldable pub change_job : String → (UploadJob → UploadJob) → Uploads → Uploads
change_job id f [] = []
change_job id f ((key, job) ∷ rest) =
    (key, if str_eq key id then f job else job) ∷ change_job id f rest

unfoldable pub delete_job : String → Uploads → Uploads
delete_job id [] = []
delete_job id ((key, job) ∷ rest) =
    let later = delete_job id rest in if str_eq key id then later else (key, job) ∷ later

abbrev pub is_active_for : Text → UploadJob → Bool
is_active_for profile_id job =
    text_eq job.progress.profile_id profile_id && upload_state_active job.progress.state

abbrev pub upload_error : String → AppError
upload_error code = new_app_error code "file_upload" false

abbrev pub trimmed : UploadRequest → UploadRequest
trimmed r = record r {
  profile_id = trim_space r.profile_id;
  remote_directory = trim_space r.remote_directory;
}

abbrev pub check_request : UploadRequest → Result AppError (Unit {0})
check_request r =
    fail_if (is_empty r.profile_id) (upload_error "UPLOAD_INVALID")
    >> fail_if (is_empty r.local_paths) (upload_error "UPLOAD_INVALID")
    >> fail_if (member 0 r.remote_directory || ltb 4096 (utf8_length r.remote_directory))
        (upload_error "UPLOAD_INVALID")

-- `ActiveUploadCount`
unfoldable pub active_upload_count : Text → Uploads → ℕ
active_upload_count profile_id [] = 0
active_upload_count profile_id ((key, job) ∷ rest) =
    (if is_active_for profile_id job then 1 else 0) + active_upload_count profile_id rest

abbrev pub any_active : Text → Uploads → Bool
any_active profile_id [] = false
any_active profile_id ((key, job) ∷ rest) =
    is_active_for profile_id job || any_active profile_id rest

abbrev pub new_progress : Text → ℕ → UploadProgress
new_progress profile_id now = record {
  profile_id = profile_id;
  state = queued;
  current_item = [];
  files_total = 0;
  directories_total = 0;
  bytes_total = 0;
  files_completed = 0;
  directories_completed = 0;
  bytes_transferred = 0;
  bytes_per_second = 0;
  bytes_resumed = 0;
  concurrent_files = 0;
  error_code = "";
  started_at = now;
  finished_at = 0;
}

abbrev pub new_job : UploadRequest → ℕ → UploadJob
new_job r now = record {
  request = r;
  ctx_cancelled = false;
  past_check = false;
  progress = new_progress r.profile_id now;
  last_emit = none;
  speed = new_meter;
}

abbrev pub upload_network_bytes : UploadProgress → ℕ
upload_network_bytes p = p.bytes_transferred - p.bytes_resumed

abbrev pub emits : Bool → ℕ → Option ℕ → Bool
emits force now none = true
emits force now (some at) = force || leb 150000000 (now - at)

module _ (per_second : ℕ → ℕ → ℕ) where
  abbrev pub measured : ℕ → UploadProgress → UploadProgress → SpeedMeter → SpeedMeter × ℕ
  measured now before after speed =
      let meter : SpeedMeter = if is_uploading before.state then speed else reset_meter now in
      if ltb (upload_network_bytes before) (upload_network_bytes after)
      then add_bytes per_second now (upload_network_bytes after - upload_network_bytes before) meter
      else (meter, current_speed now meter)

  abbrev pub metered : ℕ → UploadProgress → UploadProgress → SpeedMeter → SpeedMeter × ℕ
  metered now before after speed =
      if is_uploading after.state then measured now before after speed else (speed, 0)

  -- `updateUpload`, without the event that it emits
  unfoldable pub update_upload :
      Bool → ℕ → (UploadProgress → UploadProgress) → UploadJob → UploadJob
  update_upload force now update job =
      let after : UploadProgress = update job.progress in
      let r = metered now job.progress after job.speed in
      record job {
        progress = record after { bytes_per_second = r.1 };
        speed = r.0;
        last_emit = if emits force now job.last_emit then some now else job.last_emit;
      }

  -- `StartUpload`: `connected` tells that the profile has a client, `id` is the new job's.
  abbrev pub add_job : String → UploadRequest → ℕ → Uploads → Uploads
  add_job id r now jobs = (id, update_upload true now (λ p. p) (new_job r now)) ∷ delete_job id jobs

  abbrev pub start_checked : Bool → String → UploadRequest → ℕ → Uploads → Result AppError Uploads
  start_checked connected id r now jobs =
      check_request r
      >> fail_if (not connected) (new_app_error "SSH_SESSION_FAILED" "file_upload" true)
      >> fail_if (any_active r.profile_id jobs) (upload_error "UPLOAD_BUSY")
      >> ok (add_job id r now jobs)

  unfoldable pub start_upload :
      Bool → String → UploadRequest → ℕ → Uploads → Result AppError Uploads
  start_upload connected id request now jobs = start_checked connected id (trimmed request) now jobs
