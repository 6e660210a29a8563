-- ===== src/Ssh/Jobs/Runs.antt =====
-- internal/sshclient/upload.go: the queries and cancellations of uploads, and the steps of `runUpload`, each
-- of which is one call of `updateUpload` or of `finishUpload`.
use Prim.Native.String.{String}
use lab_remote_go.Common.{
  ℕ, ◌+◌, ◌-◌, Bool, true, false, not, ◌&&◌, ◌||◌, List, [], ◌∷◌, Option, none, some, if◌then◌else◌,
}
use lab_remote_go.Common.Results.{Result, err, ok}
use lab_remote_go.Common.Texts.{Text}
use lab_remote_go.Model.Errors.{AppError}
use lab_remote_go.Ssh.SpeedMeter.{current_speed}
use lab_remote_go.Ssh.Upload.{Report, gained, lost}
use lab_remote_go.Ssh.Jobs.{
  UploadState, queued, scanning, uploading, completed, failed, cancelled, UploadRequest,
  UploadProgress, UploadJob, JobError, canceled, app, other, upload_state_active, is_uploading,
  Uploads, find_job, change_job, delete_job, is_active_for, upload_error, update_upload,
  start_upload,
}

abbrev pub status_of : ℕ → Option UploadJob → Result AppError UploadProgress
status_of now none = err (upload_error "UPLOAD_NOT_FOUND")
status_of now (some job) = ok (
    if is_uploading job.progress.state
    then record job.progress { bytes_per_second = current_speed now job.speed }
    else job.progress)

unfoldable pub upload_status : String → ℕ → Uploads → Result AppError UploadProgress
upload_status id now jobs = status_of now (find_job id jobs)

abbrev pub cancel_job : UploadJob → UploadJob
cancel_job job = record job { ctx_cancelled = true }

abbrev pub cancel_if_active : UploadJob → UploadJob
cancel_if_active job = if upload_state_active job.progress.state then cancel_job job else job

abbrev pub cancelled_from :
    String → Uploads → Option UploadJob → Uploads × Result AppError (Unit {0})
cancelled_from id jobs none = (jobs, err (upload_error "UPLOAD_NOT_FOUND"))
cancelled_from id jobs (some job) = (change_job id cancel_if_active jobs, ok tt)

unfoldable pub cancel_upload : String → Uploads → Uploads × Result AppError (Unit {0})
cancel_upload id jobs = cancelled_from id jobs (find_job id jobs)

unfoldable pub cancel_profile_uploads : Text → Uploads → Uploads
cancel_profile_uploads profile_id [] = []
cancel_profile_uploads profile_id ((key, job) ∷ rest) =
    (key, if is_active_for profile_id job then cancel_job job else job)
    ∷ cancel_profile_uploads profile_id rest

unfoldable pub cancel_all_uploads : Uploads → Uploads
cancel_all_uploads [] = []
cancel_all_uploads ((key, job) ∷ rest) = (key, cancel_if_active job) ∷ cancel_all_uploads rest

abbrev pub final_state : Bool → JobError → UploadState
final_state true e = cancelled
final_state false canceled = cancelled
final_state false (app e) = failed
final_state false other = failed

abbrev pub final_code : Bool → JobError → String
final_code true e = "UPLOAD_CANCELLED"
final_code false canceled = "UPLOAD_CANCELLED"
final_code false (app e) = e.code
final_code false other = "UPLOAD_FAILED"

-- What the goroutine does next: it scans, reads its plan, makes directories, sends files, sees a worker's
-- progress, looks at the context for the last time, and ends with or without an error.
pub data RunStep : Type 0 where
  scan : RunStep
  found : Text → RunStep
  planned : ℕ → ℕ → ℕ → RunStep
  directory_begun directory_made : Text → RunStep
  files_begun : ℕ → RunStep
  file_begun : Text → RunStep
  moved : Report → RunStep
  resumed : ℕ → RunStep
  file_done : RunStep
  checked complete : RunStep
  ended : JobError → RunStep

abbrev pub moved_by : Report → UploadProgress → UploadProgress
moved_by (gained n) p = record p { bytes_transferred = p.bytes_transferred + n }
moved_by (lost n) p = record p { bytes_transferred = p.bytes_transferred - n }

abbrev pub is_queued : UploadState → Bool
is_queued queued = true
is_queued _ = false

abbrev pub is_scanning : UploadState → Bool
is_scanning scanning = true
is_scanning _ = false

-- Where the goroutine stands, by the state that it has set.
abbrev pub in_state : RunStep → UploadState → Bool
in_state scan state = is_queued state
in_state (found name) state = is_scanning state
in_state (planned files dirs total) state = is_scanning state
in_state (ended e) state = is_scanning state || is_uploading state
in_state _ state = is_uploading state

abbrev pub is_complete : RunStep → Bool
is_complete complete = true
is_complete _ = false

-- A call of the manager, a step of a job's goroutine, or the timer that drops a job that ended.
pub data JobEvent : Type 0 where
  start : Bool → String → UploadRequest → JobEvent
  cancel : String → JobEvent
  cancel_profile : Text → JobEvent
  cancel_all : JobEvent
  step : String → RunStep → JobEvent
  expire : String → JobEvent

module _ (per_second : ℕ → ℕ → ℕ) where
  -- `finishUpload`
  unfoldable pub finish_upload : JobError → ℕ → UploadJob → UploadJob
  finish_upload e now job = cancel_job (
      update_upload per_second true now
        (λ p. record p {
          state = final_state job.ctx_cancelled e;
          error_code = final_code job.ctx_cancelled e;
          finished_at = now;
        })
        job)

  unfoldable pub run_step : RunStep → ℕ → UploadJob → UploadJob
  run_step scan now job = update_upload per_second true now (λ p. record p { state = scanning }) job
  run_step (found name) now job =
      update_upload per_second false now (λ p. record p { current_item = name }) job
  run_step (planned files dirs total) now job =
      update_upload per_second true now
        (λ p. record p {
          state = uploading;
          files_total = files;
          directories_total = dirs;
          bytes_total = total;
        })
        job
  run_step (directory_begun name) now job =
      update_upload per_second true now (λ p. record p { current_item = name }) job
  run_step (directory_made name) now job =
      update_upload per_second true now
        (λ p. record p { directories_completed = p.directories_completed + 1 }) job
  run_step (files_begun n) now job =
      update_upload per_second true now (λ p. record p { concurrent_files = n }) job
  run_step (file_begun name) now job =
      update_upload per_second true now (λ p. record p { current_item = name }) job
  run_step (moved delta) now job = update_upload per_second false now (moved_by delta) job
  run_step (resumed n) now job =
      update_upload per_second true now
        (λ p. record p {
          bytes_transferred = p.bytes_transferred + n;
          bytes_resumed = p.bytes_resumed + n;
        })
        job
  run_step file_done now job =
      update_upload per_second true now (λ p. record p { files_completed = p.files_completed + 1 })
        job
  run_step checked now job =
      if job.ctx_cancelled then finish_upload canceled now job else record job { past_check = true }
  run_step complete now job =
      if job.past_check
      then cancel_job (
          update_upload per_second true now
            (λ p. record p { state = completed; current_item = []; finished_at = now }) job)
      else job
  run_step (ended e) now job = finish_upload e now job

  -- the goroutine's step, if that is where it stands
  unfoldable pub take_step : RunStep → ℕ → UploadJob → UploadJob
  take_step s now job =
      if in_state s job.progress.state && (not job.past_check || is_complete s)
      then run_step s now job
      else job

  abbrev pub started : Uploads → Result AppError Uploads → Uploads
  started jobs (ok jobs') = jobs'
  started jobs (err e) = jobs

  -- The timer of `expireUpload` runs only for a job that has ended.
  abbrev pub expired : String → Uploads → Option UploadJob → Uploads
  expired id jobs none = jobs
  expired id jobs (some job) =
      if upload_state_active job.progress.state then jobs else delete_job id jobs

  unfoldable pub apply_event : JobEvent → ℕ → Uploads → Uploads
  apply_event (start connected id request) now jobs =
      started jobs (start_upload per_second connected id request now jobs)
  apply_event (cancel id) now jobs = (cancel_upload id jobs).0
  apply_event (cancel_profile profile_id) now jobs = cancel_profile_uploads profile_id jobs
  apply_event cancel_all now jobs = cancel_all_uploads jobs
  apply_event (step id s) now jobs = change_job id (take_step s now) jobs
  apply_event (expire id) now jobs = expired id jobs (find_job id jobs)

  unfoldable pub run_jobs : List (JobEvent × ℕ) → Uploads → Uploads
  run_jobs [] jobs = jobs
  run_jobs ((event, now) ∷ rest) jobs = run_jobs rest (apply_event event now jobs)
