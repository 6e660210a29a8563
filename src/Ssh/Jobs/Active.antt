-- ===== src/Ssh/Jobs/Active.antt =====
-- A profile has one active upload at most.
use Prim.Native.String.{String}
use lab_remote_go.Common.{
  ℕ, ◌≤◌, ◌≡◌, refl, Bool, true, false, not, ◌&&◌, ◌||◌, List, [], ◌∷◌, Option, none, some, arith,
  if-rule, Bool-cases, &&_true, inl, inr,
}
use lab_remote_go.Common.Results.{Result, err, ok, ◌>>◌, fail_if, ok-inj, >>-ok, fail_if-passes}
use lab_remote_go.Common.Texts.{Text, text_eq, text_eq_sound}
use lab_remote_go.Model.Errors.{AppError, new_app_error}
use lab_remote_go.Ssh.Upload.{gained, lost}
use lab_remote_go.Ssh.Jobs.{
  UploadState, queued, scanning, uploading, UploadRequest, UploadJob, upload_state_active,
  is_uploading, Uploads, find_job, change_job, delete_job, is_active_for, active_upload_count,
  any_active, update_upload, start_upload, new_job, add_job, trimmed, check_request, upload_error,
}
use lab_remote_go.Ssh.Jobs.Runs

queued-active :
    (state : UploadState) → Runs.is_queued state ≡ true → upload_state_active state ≡ true
queued-active queued h = refl
queued-active scanning h = refl
queued-active uploading h = refl
queued-active _ h = absurd (cc)

scanning-active :
    (state : UploadState) → Runs.is_scanning state ≡ true → upload_state_active state ≡ true
scanning-active scanning h = refl
scanning-active queued h = refl
scanning-active uploading h = refl
scanning-active _ h = absurd (cc)

uploading-active :
    (state : UploadState) → is_uploading state ≡ true → upload_state_active state ≡ true
uploading-active uploading h = refl
uploading-active queued h = refl
uploading-active scanning h = refl
uploading-active _ h = absurd (cc)

pub in_state-active :
    (s : Runs.RunStep) (state : UploadState)
    → Runs.in_state s state ≡ true
    → upload_state_active state ≡ true
in_state-active Runs.scan state h = queued-active state h
in_state-active (Runs.found name) state h = scanning-active state h
in_state-active (Runs.planned files dirs total) state h = scanning-active state h
in_state-active (Runs.ended e) state h = elim (Bool-cases (Runs.is_scanning state)) [
  | inl here ↦ scanning-active state here
  | inr there ↦ uploading-active state (ground arith)
]
in_state-active _ state h = uploading-active state h

module _ (per_second : ℕ → ℕ → ℕ) where
  pub run_step-profile_id :
      (s : Runs.RunStep) (now : ℕ) (job : UploadJob)
      → (Runs.run_step per_second s now job).progress.profile_id ≡ job.progress.profile_id
  unfolding Runs.run_step Runs.finish_upload update_upload
  run_step-profile_id Runs.scan now job = refl
  run_step-profile_id (Runs.moved (gained n)) now job = refl
  run_step-profile_id (Runs.moved (lost n)) now job = refl
  run_step-profile_id Runs.checked now job = ground arith
  run_step-profile_id Runs.complete now job = ground arith
  run_step-profile_id _ now job = refl

  -- A step of a goroutine activates nothing.
  take_step-active :
      (p : Text) (s : Runs.RunStep) (now : ℕ) (job : UploadJob)
      → is_active_for p (Runs.take_step per_second s now job) ≡ true
      → is_active_for p job ≡ true
  unfolding Runs.take_step
  take_step-active p s now job =
      let taken =
        Runs.in_state s job.progress.state && (not job.past_check || Runs.is_complete s) in
      if-rule (λ (j : UploadJob). is_active_for p j ≡ true → is_active_for p job ≡ true) taken
        (Runs.run_step per_second s now job) job
        (λ t h.
          let (here, going) =
            &&_true (Runs.in_state s job.progress.state) (not job.past_check || Runs.is_complete s)
              t in
          let active = in_state-active s job.progress.state here in
          let (same, after) =
            &&_true (text_eq (Runs.run_step per_second s now job).progress.profile_id p)
              (upload_state_active (Runs.run_step per_second s now job).progress.state) h in
          rw active (rw (← run_step-profile_id s now job) (ground (arith, same))))
        (λ t h. h)

count-change :
    (p : Text) (id : String) (f : UploadJob → UploadJob) (jobs : Uploads)
    → ((job : UploadJob) → is_active_for p (f job) ≡ true → is_active_for p job ≡ true)
    → active_upload_count p (change_job id f jobs) ≤ active_upload_count p jobs
unfolding active_upload_count change_job
count-change p id f [] keep = omega arith
count-change p id f ((key, job) ∷ rest) keep =
    ground (arith, keep job, count-change p id f rest keep)

count-delete :
    (p : Text) (id : String) (jobs : Uploads)
    → active_upload_count p (delete_job id jobs) ≤ active_upload_count p jobs
unfolding active_upload_count delete_job
count-delete p id [] = omega arith
count-delete p id ((key, job) ∷ rest) = ground (arith, count-delete p id rest)

count-idle :
    (p : Text) (jobs : Uploads) → any_active p jobs ≡ false → active_upload_count p jobs ≡ 0
unfolding active_upload_count
count-idle p [] h = refl
count-idle p ((key, job) ∷ rest) h = ground (arith, count-idle p rest)

count-cancel_profile :
    (p q : Text) (jobs : Uploads)
    → active_upload_count p (Runs.cancel_profile_uploads q jobs) ≡ active_upload_count p jobs
unfolding active_upload_count Runs.cancel_profile_uploads
count-cancel_profile p q [] = refl
count-cancel_profile p q ((key, job) ∷ rest) = ground (arith, count-cancel_profile p q rest)

count-cancel_all :
    (p : Text) (jobs : Uploads)
    → active_upload_count p (Runs.cancel_all_uploads jobs) ≡ active_upload_count p jobs
unfolding active_upload_count Runs.cancel_all_uploads
count-cancel_all p [] = refl
count-cancel_all p ((key, job) ∷ rest) = ground (arith, count-cancel_all p rest)

module _ (per_second : ℕ → ℕ → ℕ) where
  pub start_upload-ok :
      (connected : Bool) (id : String) (request : UploadRequest) (now : ℕ) (jobs jobs' : Uploads)
      → start_upload per_second connected id request now jobs ≡ ok jobs'
      → (any_active (trimmed request).profile_id jobs ≡ false)
        × (add_job per_second id (trimmed request) now jobs ≡ jobs')
  unfolding start_upload
  start_upload-ok connected id request now jobs jobs' h =
      let r = trimmed request in
      let connecting =
        check_request r
        >> fail_if (not connected) (new_app_error "SSH_SESSION_FAILED" "file_upload" true) in
      let busy = fail_if (any_active r.profile_id jobs) (upload_error "UPLOAD_BUSY") in
      let (before, last) = >>-ok (connecting >> busy) (ok (add_job per_second id r now jobs)) h in
      let (_, free) = >>-ok connecting busy before in
      (fail_if-passes (any_active r.profile_id jobs) (upload_error "UPLOAD_BUSY") free, ok-inj last)

  new_job-active :
      (p : Text) (r : UploadRequest) (now : ℕ)
      → is_active_for p (update_upload per_second true now (λ q. q) (new_job r now)) ≡ true
      → r.profile_id ≡ p
  unfolding update_upload
  new_job-active p r now h = text_eq_sound r.profile_id p (ground arith)

  add_job-count :
      (p : Text) (id : String) (r : UploadRequest) (now : ℕ) (jobs : Uploads)
      → any_active r.profile_id jobs ≡ false
      → active_upload_count p jobs ≤ 1
      → active_upload_count p (add_job per_second id r now jobs) ≤ 1
  unfolding active_upload_count
  add_job-count p id r now jobs idle one =
      let job = update_upload per_second true now (λ q. q) (new_job r now) in
      elim (Bool-cases (is_active_for p job)) [
        | inl mine ↦
            let none_left : active_upload_count p jobs ≡ 0 =
              rw (← new_job-active p r now mine) (count-idle r.profile_id jobs idle) in
            rw mine (omega (arith, count-delete p id jobs))
        | inr others ↦ rw others (omega (arith, count-delete p id jobs))
      ]

  started-count :
      (p : Text) (connected : Bool) (id : String) (request : UploadRequest) (now : ℕ)
      (jobs : Uploads) (result : Result AppError Uploads)
      → start_upload per_second connected id request now jobs ≡ result
      → active_upload_count p jobs ≤ 1
      → active_upload_count p (Runs.started per_second jobs result) ≤ 1
  started-count p connected id request now jobs (err e) h one = one
  started-count p connected id request now jobs (ok jobs') h one =
      let (idle, e) = start_upload-ok connected id request now jobs jobs' h in
      rw (← e) (add_job-count p id (trimmed request) now jobs idle one)

  cancelled_from-count :
      (p : Text) (id : String) (jobs : Uploads) (o : Option UploadJob)
      → active_upload_count p (Runs.cancelled_from id jobs o).0 ≤ active_upload_count p jobs
  cancelled_from-count p id jobs none = omega arith
  cancelled_from-count p id jobs (some job) =
      count-change p id Runs.cancel_if_active jobs (λ j h. ground arith)

  expired-count :
      (p : Text) (id : String) (jobs : Uploads) (o : Option UploadJob)
      → active_upload_count p (Runs.expired per_second id jobs o) ≤ active_upload_count p jobs
  expired-count p id jobs none = omega arith
  expired-count p id jobs (some job) = ground (arith, count-delete p id jobs)

  apply_event-count :
      (p : Text) (event : Runs.JobEvent) (now : ℕ) (jobs : Uploads)
      → active_upload_count p jobs ≤ 1
      → active_upload_count p (Runs.apply_event per_second event now jobs) ≤ 1
  unfolding Runs.apply_event Runs.cancel_upload
  apply_event-count p (Runs.start connected id request) now jobs one =
      started-count p connected id request now jobs
        (start_upload per_second connected id request now jobs) refl one
  apply_event-count p (Runs.cancel id) now jobs one =
      omega (arith, cancelled_from-count p id jobs (find_job id jobs))
  apply_event-count p (Runs.cancel_profile q) now jobs one =
      omega (arith, count-cancel_profile p q jobs)
  apply_event-count p Runs.cancel_all now jobs one = omega (arith, count-cancel_all p jobs)
  apply_event-count p (Runs.step id s) now jobs one = omega (
    arith,
    count-change p id (Runs.take_step per_second s now) jobs (take_step-active per_second p s now),
  )
  apply_event-count p (Runs.expire id) now jobs one =
      omega (arith, expired-count p id jobs (find_job id jobs))

  -- Whatever is started, cancelled, run and dropped, in any order, a profile has one active upload at
  -- most, if that held before.
  pub run_jobs-count :
      (p : Text) (events : List (Runs.JobEvent × ℕ)) (jobs : Uploads)
      → active_upload_count p jobs ≤ 1
      → active_upload_count p (Runs.run_jobs per_second events jobs) ≤ 1
  unfolding Runs.run_jobs
  run_jobs-count p [] jobs one = one
  run_jobs-count p ((event, now) ∷ rest) jobs one =
      run_jobs-count p rest (Runs.apply_event per_second event now jobs)
        (apply_event-count p event now jobs one)
