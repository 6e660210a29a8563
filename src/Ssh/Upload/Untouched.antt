-- ===== src/Ssh/Upload/Untouched.antt =====
-- A transfer that goes on at `start` leaves the bytes before it.
use lab_remote_go.Common.{ℕ, ◌+◌, ◌*◌, ◌-◌, ◌<◌, ◌≡◌, refl, ◌∙◌, List, [], ◌∷◌, arith}
use lab_remote_go.Ssh.Upload.{
  new_transfer, written_of, nth_chunk, Transfer, Event, dispatch, result, give_up, cancel,
  step_transfer, run_transfer, write_at, upload_packet_size, write_upload_file,
}

module _ (local : ℕ → ℕ) (start total : ℕ) where
  write_at-below :
      (offset n p : ℕ) (remote : ℕ → ℕ) → p < offset → write_at local offset n remote p ≡ remote p
  write_at-below offset n p remote h = ground arith

  step-below :
      (e : Event) (t : Transfer) (p : ℕ)
      → p < start
      → (step_transfer local start total e t).remote p ≡ t.remote p
  unfolding step_transfer
  step-below dispatch t p h = ground arith
  step-below (result i due outcome) t p h = ground (
    arith,
    write_at-below (start + i * upload_packet_size) (written_of (nth_chunk start total i) outcome) p
        t.remote,
  )
  step-below (give_up i) t p h = ground arith
  step-below cancel t p h = refl

  run-below :
      (es : List Event) (t : Transfer) (p : ℕ)
      → p < start
      → (run_transfer local start total es t).remote p ≡ t.remote p
  unfolding run_transfer
  run-below [] t p h = refl
  run-below (e ∷ es) t p h =
      run-below es (step_transfer local start total e t) p h ∙ step-below e t p h

  pub write_upload_file-below :
      (concurrency : ℕ) (original : ℕ → ℕ) (es : List Event) (p : ℕ)
      → p < start
      → (write_upload_file local start total concurrency original es).1 p ≡ original p
  unfolding write_upload_file
  write_upload_file-below concurrency original es p h =
      ground (arith, run-below es (new_transfer (total - start) concurrency original) p)
