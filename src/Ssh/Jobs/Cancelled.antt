-- ===== src/Ssh/Jobs/Cancelled.antt =====
-- A cancellation in time wins over whatever the upload does afterwards.
use Prim.Native.String.{String}
use lab_remote_go.Common.{
  ℕ, ◌≡◌, refl, Bool, true, false, not, ◌&&◌, ◌||◌, List, [], ◌∷◌, Option, none, some, arith,
  if-rule, if◌then◌else◌, Bool-cases, &&_true, inl, inr,
}
use lab_remote_go.Common.Maps.{str_eq, str_eq_iff}
use lab_remote_go.Common.Results.{Result, err, ok}
use lab_remote_go.Common.Texts.{Text}
use lab_remote_go.Model.Errors.{AppError}
use lab_remote_go.Ssh.Upload.{gained, lost}
use lab_remote_go.Ssh.Jobs.{
  UploadState, cancelled, UploadRequest, UploadJob, upload_state_active, Uploads, find_job,
  change_job, delete_job, is_active_for, update_upload, start_upload,
}
use lab_remote_go.Ssh.Jobs.Runs
use lab_remote_go.Ssh.Jobs.Active.{in_state-active, start_upload-ok}

abbrev pub is_cancelled : UploadState → Bool
is_cancelled cancelled = true
is_cancelled _ = false

-- The job was cancelled before its goroutine looked at the context for the last time, and it runs or
-- has ended as cancelled.
abbrev pub IsDoomed : UploadJob → Type 0
IsDoomed job =
    (job.ctx_cancelled ≡ true)
    × (job.past_check ≡ false)
    × ((upload_state_active job.progress.state || is_cancelled job.progress.state) ≡ true)

abbrev pub DoomedAt : Option UploadJob → Type 0
DoomedAt none = Unit {0}
DoomedAt (some job) = IsDoomed job

-- No other job is started under this identifier.
abbrev pub Avoids : String → List (Runs.JobEvent × ℕ) → Type 0
Avoids id [] = Unit {0}
Avoids id ((Runs.start connected key request, now) ∷ rest) =
    (str_eq key id ≡ false) × Avoids id rest
Avoids id ((_, now) ∷ rest) = Avoids id rest

module _ (per_second : ℕ → ℕ → ℕ) where
  run_step-IsDoomed :
      (s : Runs.RunStep) (now : ℕ) (job : UploadJob)
      → upload_state_active job.progress.state ≡ true
      → IsDoomed job
      → IsDoomed (Runs.run_step per_second s now job)
  unfolding Runs.run_step Runs.finish_upload update_upload
  run_step-IsDoomed Runs.scan now job active d = (d.0, d.1, refl)
  run_step-IsDoomed (Runs.planned files dirs total) now job active d = (d.0, d.1, refl)
  run_step-IsDoomed (Runs.moved (gained n)) now job active d = d
  run_step-IsDoomed (Runs.moved (lost n)) now job active d = d
  run_step-IsDoomed Runs.checked now job active d = rw d.0 (refl, d.1, refl)
  run_step-IsDoomed Runs.complete now job active d =
      if-rule IsDoomed job.past_check _ job (λ b. absurd (ground (arith, d.1))) (λ b. d)
  run_step-IsDoomed (Runs.ended e) now job active d = rw d.0 (refl, d.1, refl)
  run_step-IsDoomed _ now job active d = d

  take_step-IsDoomed :
      (s : Runs.RunStep) (now : ℕ) (job : UploadJob)
      → IsDoomed job
      → IsDoomed (Runs.take_step per_second s now job)
  unfolding Runs.take_step
  take_step-IsDoomed s now job d =
      let here = Runs.in_state s job.progress.state in
      let going = not job.past_check || Runs.is_complete s in
      if-rule IsDoomed (here && going) (Runs.run_step per_second s now job) job
        (λ t.
          run_step-IsDoomed s now job
            (in_state-active s job.progress.state (&&_true here going t).0) d)
        (λ t. d)

DoomedAt-change :
    (id key : String) (f : UploadJob → UploadJob) (jobs : Uploads)
    → ((job : UploadJob) → IsDoomed job → IsDoomed (f job))
    → DoomedAt (find_job id jobs)
    → DoomedAt (find_job id (change_job key f jobs))
unfolding find_job change_job
DoomedAt-change id key f [] keep d = tt
DoomedAt-change id key f ((k, job) ∷ rest) keep d = elim (Bool-cases (str_eq k id)) [
  | inl mine ↦
      let there : IsDoomed job = rw mine at d in
      rw mine (if-rule IsDoomed (str_eq k key) (f job) job (λ _. keep job there) (λ _. there))
  | inr others ↦
      let there : DoomedAt (find_job id rest) = rw others at d in
      rw others (DoomedAt-change id key f rest keep there)
]

find-delete :
    (id key : String) (jobs : Uploads)
    → find_job id (delete_job key jobs) ≡ (if str_eq key id then none else find_job id jobs)
unfolding find_job delete_job
find-delete id key [] = ground arith
find-delete id key ((k, job) ∷ rest) =
    ground (arith, find-delete id key rest, str_eq_iff k key, str_eq_iff k id, str_eq_iff key id)

DoomedAt-delete :
    (id key : String) (jobs : Uploads)
    → DoomedAt (find_job id jobs)
    → DoomedAt (find_job id (delete_job key jobs))
DoomedAt-delete id key jobs d =
    rw (find-delete id key jobs)
      (if-rule DoomedAt (str_eq key id) none (find_job id jobs) (λ _. tt) (λ _. d))

cancel-IsDoomed : (job : UploadJob) → IsDoomed job → IsDoomed (Runs.cancel_job job)
cancel-IsDoomed job d = (refl, d.1, d.2)

cancel_if_active-IsDoomed : (job : UploadJob) → IsDoomed job → IsDoomed (Runs.cancel_if_active job)
cancel_if_active-IsDoomed job d =
    if-rule IsDoomed (upload_state_active job.progress.state) (Runs.cancel_job job) job
      (λ _. cancel-IsDoomed job d) (λ _. d)

DoomedAt-cancel_profile :
    (id : String) (p : Text) (jobs : Uploads)
    → DoomedAt (find_job id jobs)
    → DoomedAt (find_job id (Runs.cancel_profile_uploads p jobs))
unfolding find_job Runs.cancel_profile_uploads
DoomedAt-cancel_profile id p [] d = tt
DoomedAt-cancel_profile id p ((k, job) ∷ rest) d = elim (Bool-cases (str_eq k id)) [
  | inl mine ↦
      let there : IsDoomed job = rw mine at d in
      rw mine (
        if-rule IsDoomed (is_active_for p job) (Runs.cancel_job job) job
          (λ _. cancel-IsDoomed job there) (λ _. there))
  | inr others ↦
      let there : DoomedAt (find_job id rest) = rw others at d in
      rw others (DoomedAt-cancel_profile id p rest there)
]

DoomedAt-cancel_all :
    (id : String) (jobs : Uploads)
    → DoomedAt (find_job id jobs)
    → DoomedAt (find_job id (Runs.cancel_all_uploads jobs))
unfolding find_job Runs.cancel_all_uploads
DoomedAt-cancel_all id [] d = tt
DoomedAt-cancel_all id ((k, job) ∷ rest) d = elim (Bool-cases (str_eq k id)) [
  | inl mine ↦
      let there : IsDoomed job = rw mine at d in rw mine (cancel_if_active-IsDoomed job there)
  | inr others ↦
      let there : DoomedAt (find_job id rest) = rw others at d in
      rw others (DoomedAt-cancel_all id rest there)
]

cancelled_from-DoomedAt :
    (id key : String) (jobs : Uploads) (o : Option UploadJob)
    → DoomedAt (find_job id jobs)
    → DoomedAt (find_job id (Runs.cancelled_from key jobs o).0)
cancelled_from-DoomedAt id key jobs none d = d
cancelled_from-DoomedAt id key jobs (some job) d =
    DoomedAt-change id key Runs.cancel_if_active jobs cancel_if_active-IsDoomed d

module _ (per_second : ℕ → ℕ → ℕ) where
  expired-DoomedAt :
      (id key : String) (jobs : Uploads) (o : Option UploadJob)
      → DoomedAt (find_job id jobs)
      → DoomedAt (find_job id (Runs.expired per_second key jobs o))
  expired-DoomedAt id key jobs none d = d
  expired-DoomedAt id key jobs (some job) d =
      if-rule (λ (js : Uploads). DoomedAt (find_job id js)) (upload_state_active job.progress.state)
        jobs (delete_job key jobs) (λ _. d) (λ _. DoomedAt-delete id key jobs d)

  started-DoomedAt :
      (id : String) (connected : Bool) (key : String) (request : UploadRequest) (now : ℕ)
      (jobs : Uploads) (result : Result AppError Uploads)
      → str_eq key id ≡ false
      → start_upload per_second connected key request now jobs ≡ result
      → DoomedAt (find_job id jobs)
      → DoomedAt (find_job id (Runs.started per_second jobs result))
  unfolding find_job
  started-DoomedAt id connected key request now jobs (err e) new h d = d
  started-DoomedAt id connected key request now jobs (ok jobs') new h d =
      let (idle, e) = start_upload-ok per_second connected key request now jobs jobs' h in
      rw (← e) (rw new (DoomedAt-delete id key jobs d))

  -- An upload that was cancelled in time, and whose identifier is not used again, is not completed and
  -- does not fail, whatever happens: it runs, has ended as cancelled, or has been dropped.
  pub run_jobs-DoomedAt :
      (id : String) (events : List (Runs.JobEvent × ℕ)) (jobs : Uploads)
      → Avoids id events
      → DoomedAt (find_job id jobs)
      → DoomedAt (find_job id (Runs.run_jobs per_second events jobs))
  unfolding Runs.run_jobs Runs.apply_event Runs.cancel_upload
  run_jobs-DoomedAt id [] jobs avoids d = d
  run_jobs-DoomedAt id ((Runs.start connected key request, now) ∷ rest) jobs avoids d =
      run_jobs-DoomedAt id rest _ avoids.1 (
        started-DoomedAt id connected key request now jobs
          (start_upload per_second connected key request now jobs) avoids.0 refl d)
  run_jobs-DoomedAt id ((Runs.cancel key, now) ∷ rest) jobs avoids d =
      run_jobs-DoomedAt id rest _ avoids (cancelled_from-DoomedAt id key jobs (find_job key jobs) d)
  run_jobs-DoomedAt id ((Runs.cancel_profile p, now) ∷ rest) jobs avoids d =
      run_jobs-DoomedAt id rest _ avoids (DoomedAt-cancel_profile id p jobs d)
  run_jobs-DoomedAt id ((Runs.cancel_all, now) ∷ rest) jobs avoids d =
      run_jobs-DoomedAt id rest _ avoids (DoomedAt-cancel_all id jobs d)
  run_jobs-DoomedAt id ((Runs.step key s, now) ∷ rest) jobs avoids d =
      run_jobs-DoomedAt id rest _ avoids (
        DoomedAt-change id key (Runs.take_step per_second s now) jobs
          (take_step-IsDoomed per_second s now) d)
  run_jobs-DoomedAt id ((Runs.expire key, now) ∷ rest) jobs avoids d =
      run_jobs-DoomedAt id rest _ avoids (expired-DoomedAt id key jobs (find_job key jobs) d)
