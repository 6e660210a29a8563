-- ===== src/Ssh/Jobs/Tests.antt =====
-- Runs and witnesses for the uploads of the manager.
use lab_remote_go.Common.{ℕ, ◌/◌, ◌*◌, ◌≤◌, ◌≡◌, refl, true, false, List, [], ◌∷◌, arith}
use lab_remote_go.Common.Texts.{Text}
use lab_remote_go.Common.Paths.{codes}
use lab_remote_go.Ssh.SpeedMeter.{add_bytes, current_speed}
use lab_remote_go.Ssh.Upload.{gained}
use lab_remote_go.Ssh.Jobs.{
  UploadRequest, Uploads, find_job, change_job, delete_job, active_upload_count, update_upload,
  start_upload,
}
use lab_remote_go.Ssh.Jobs.Runs.{
  JobEvent, start, cancel, step, expire, scan, planned, moved, checked, complete, cancel_upload,
  run_step, take_step, apply_event, run_jobs,
}
use lab_remote_go.Ssh.Jobs.Active.{run_jobs-count}
use lab_remote_go.Ssh.Jobs.Cancelled.{DoomedAt, run_jobs-DoomedAt}

-- bytes in a second, from a time in nanoseconds, for whole seconds
abbrev rate : ℕ → ℕ → ℕ
rate bytes elapsed = bytes * 1000000000 / elapsed

abbrev request : Text → UploadRequest
request profile = record {
  profile_id = profile;
  local_paths = codes "a" ∷ [];
  remote_directory = codes "~";
  overwrite = false;
  resume = true;
}

abbrev lab : Text
lab = codes "lab"

-- The second start finds the first upload active; the third one comes after its end.
abbrev events : List (JobEvent × ℕ)
events =
    (start true "one" (request lab), 1)
    ∷ (start true "two" (request (codes " lab ")), 2)
    ∷ (step "one" scan, 3)
    ∷ (step "one" (planned 1 0 10), 4)
    ∷ (step "one" (moved (gained 10)), 500000004)
    ∷ (step "one" checked, 500000005)
    ∷ (step "one" complete, 500000006)
    ∷ (start true "three" (request lab), 500000007)
    ∷ []

one_at_a_time : active_upload_count lab (run_jobs rate events []) ≡ 1
unfolding active_upload_count run_jobs apply_event start_upload update_upload take_step run_step
    change_job delete_job add_bytes current_speed
one_at_a_time = refl

run_jobs-count_example : active_upload_count lab (run_jobs rate events []) ≤ 1
unfolding active_upload_count
run_jobs-count_example = run_jobs-count rate lab events [] (omega arith)

abbrev opening : List (JobEvent × ℕ)
opening =
    (start true "one" (request lab), 1)
    ∷ (step "one" scan, 2)
    ∷ (step "one" (planned 1 0 10), 3)
    ∷ (cancel "one", 4)
    ∷ []

unfoldable in_time : Uploads
unfolding run_jobs apply_event start_upload update_upload take_step run_step change_job delete_job
    add_bytes current_speed cancel_upload find_job
in_time = run_jobs rate opening []

abbrev ending : List (JobEvent × ℕ)
ending =
    (step "one" (moved (gained 10)), 5)
    ∷ (step "one" checked, 6)
    ∷ (step "one" complete, 7)
    ∷ (start true "two" (request lab), 8)
    ∷ (expire "one", 9)
    ∷ []

run_jobs-DoomedAt_example : DoomedAt (find_job "one" (run_jobs rate ending in_time))
unfolding in_time find_job
run_jobs-DoomedAt_example =
    run_jobs-DoomedAt rate "one" ending in_time (refl, tt) (refl, refl, refl)
