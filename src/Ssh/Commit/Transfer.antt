-- ===== src/Ssh/Commit/Transfer.antt =====
-- internal/sshclient/upload.go, `uploadFile` from `OpenFile` to `Close`: the bytes of the temporary file.
use lab_remote_go.Common.{
  ℕ, ◌+◌, ◌-◌, Bool, true, false, ◌||◌, Option, none, some, ◌==◌, if◌then◌else◌,
}
use lab_remote_go.Common.Results.{Result, err, ok}
use lab_remote_go.Common.Texts.{Text}
use lab_remote_go.Model.Errors.{AppError}
use lab_remote_go.Ssh.Actions.{pure, fail, ◌>>=◌, ◌>>◌, fail_if, check, attempt}
use lab_remote_go.Ssh.Sftp.{Sftp, Node, SftpError, op_unsupported}
use lab_remote_go.Ssh.Upload.{
  TransferError, context_error, Collector, request_concurrency, write_upload_file,
}
use lab_remote_go.Ssh.Commit.{
  app, context, LocalFile, FileUpload, Course, failed, write_failed, local_unread, local_changed,
  Sftping,
}

abbrev pub original_bytes : Option Node → ℕ → ℕ
original_bytes none p = 0
original_bytes (some n) p = n.bytes p

-- the transfer's writes
abbrev pub Copied : Type 0
Copied = (Collector × ℕ × Result TransferError (Unit {0})) × (ℕ → ℕ)

abbrev pub copy : LocalFile → FileUpload → Course → ℕ → (ℕ → ℕ) → Copied
copy local u course offset original =
    write_upload_file local.bytes offset u.size
      (request_concurrency (u.size - offset) u.parallel_files) original course.events

-- how far the file then reaches
abbrev pub reach : FileUpload → Course → Result TransferError (Unit {0}) → ℕ
reach u course (ok done) = u.size
reach u course (err e) = course.reached

abbrev pub is_context : TransferError → Bool
is_context context_error = true
is_context _ = false

-- a server without `fsync` is no failure
abbrev pub sync_fails : Result SftpError (Unit {0}) → Bool
sync_fails (ok u) = false
sync_fails (err op_unsupported) = false
sync_fails (err _) = true

module _ (c : Sftp) where
  open c use {open_file, seek, write_bytes, truncate, sync, close}

  abbrev pub put_bytes : FileUpload → Course → Text → Copied → Sftping c Copied
  put_bytes u course temporary out s =
      (write_bytes temporary out.1 (reach u course out.0.2) s, ok out)

  abbrev pub write_part : LocalFile → FileUpload → Course → Text → ℕ → Sftping c Copied
  write_part local u course temporary offset s =
      put_bytes u course temporary
        (copy local u course offset (original_bytes (c.node s temporary))) s

  -- after a transfer that failed: the tail that cannot be resumed is cut off
  abbrev pub give_up : Course → Text → ℕ → TransferError → Sftping c ℕ
  give_up course temporary written e = do
    attempt (close temporary) >>= λ _. pure tt
    attempt (truncate temporary written) >>= λ _. pure tt
    fail (written, if is_context e || course.ended_in_transfer then context else app write_failed)

  abbrev pub close_part : Text → ℕ → Result SftpError (Unit {0}) → Sftping c ℕ
  close_part temporary written synced = do
    check (close temporary) (written, app write_failed)
    fail_if (sync_fails synced) (written, app write_failed)
    pure written

  abbrev pub finish_part : FileUpload → Course → Text → ℕ → Copied → Sftping c ℕ
  finish_part u course temporary offset (((collector, count, err e), remote)) =
      give_up course temporary (offset + count) e
  finish_part u course temporary offset (((collector, count, ok done), remote)) =
      if offset + count == u.size
      then (attempt (sync temporary) >>= close_part temporary (offset + count))
      else (attempt (close temporary) >>= λ _. fail (offset + count, app local_changed))

  abbrev pub close_and_fail : Text → AppError → Sftping c (Unit {0})
  close_and_fail temporary e = attempt (close temporary) >>= λ _. fail (failed e)

  abbrev pub sought : Text → Result SftpError (Unit {0}) → Sftping c (Unit {0})
  sought temporary (ok u) = pure tt
  sought temporary (err e) = close_and_fail temporary write_failed

  abbrev pub seek_both : LocalFile → Text → ℕ → Sftping c (Unit {0})
  seek_both local temporary offset =
      if local.seeks
      then (attempt (seek temporary offset) >>= sought temporary)
      else close_and_fail temporary (local_unread true)

  -- from `OpenFile` to `Close`: the count of bytes that the temporary file has
  unfoldable pub transfer_part : LocalFile → FileUpload → Course → Text → ℕ → Sftping c ℕ
  transfer_part local u course temporary offset = do
    check (open_file temporary (offset == 0)) (failed write_failed)
    (if offset == 0 then pure tt else seek_both local temporary offset)
    out ← write_part local u course temporary offset
    finish_part u course temporary offset out
