-- ===== src/Ssh/Commit/Rename.antt =====
-- internal/sshclient/upload.go, `uploadFile` from `Chmod` on, and the whole of it.
use lab_remote_go.Common.{ℕ, true, false, not, if◌then◌else◌, Bytes}
use lab_remote_go.Common.Results.{Result, err, ok}
use lab_remote_go.Common.Texts.{Text}
use lab_remote_go.Common.Paths.{path_dir}
use lab_remote_go.Ssh.Actions.{pure, fail, ◌>>=◌, ◌>>◌, fail_if, check, attempt}
use lab_remote_go.Ssh.Sftp.{Sftp, Node, SftpError, not_exist}
use lab_remote_go.Ssh.Commit.{
  app, context, LocalFile, FileUpload, Course, failed, write_failed, path_failed, upload_conflict,
  local_unread, local_changed, is_directory, resumable_upload_path, Sftping, prepare,
}
use lab_remote_go.Ssh.Commit.Transfer.{transfer_part}

module _ (c : Sftp) where
  open c use {lstat, mkdir_all, remove, chmod, chtimes, posix_rename, rename}

  abbrev pub final_rename : FileUpload → Text → ℕ → Sftping c ℕ
  final_rename u temporary written =
      check (rename temporary u.destination) (written, app write_failed) >>= λ _. pure written

  -- the way of a server that cannot replace by a rename
  abbrev pub make_room : FileUpload → ℕ → Result SftpError Node → Sftping c (Unit {0})
  make_room u written (ok info) =
      if is_directory info.kind
      then fail (written, app upload_conflict)
      else check (remove u.destination) (written, app write_failed)
  make_room u written (err not_exist) = pure tt
  make_room u written (err _) = fail (written, app path_failed)

  abbrev pub replace : FileUpload → Text → ℕ → Result SftpError (Unit {0}) → Sftping c ℕ
  replace u temporary written (ok done) = pure written
  replace u temporary written (err _) =
      (attempt (lstat u.destination) >>= make_room u written) >> final_rename u temporary written

  abbrev pub require_absent : ℕ → Result SftpError Node → Sftping c (Unit {0})
  require_absent written (ok info) = fail (written, app upload_conflict)
  require_absent written (err not_exist) = pure tt
  require_absent written (err _) = fail (written, app path_failed)

  -- from `Chmod` on
  unfoldable pub commit : FileUpload → Course → Text → ℕ → ℕ → Sftping c ℕ
  commit u course temporary mode written = do
    attempt (chmod temporary mode) >>= λ _. pure tt
    attempt (chtimes temporary u.mod_time) >>= λ _. pure tt
    fail_if course.ended_after (written, context)
    if u.overwrite
        then (attempt (posix_rename temporary u.destination) >>= replace u temporary written)
        else ((attempt (lstat u.destination) >>= require_absent written)
            >> final_rename u temporary written)

  abbrev pub upload_parts : LocalFile → FileUpload → Course → Text → Text → Sftping c ℕ
  upload_parts local u course temporary prefix = do
    (mode, offset) ← prepare c u temporary prefix
    written ← transfer_part c local u course temporary offset
    commit u course temporary mode written

  abbrev pub with_part_path :
      LocalFile → FileUpload → Course → Result (Unit {0}) (Text × Text) → Sftping c ℕ
  with_part_path local u course (err e) = fail (failed (local_unread true))
  with_part_path local u course (ok (temporary, prefix)) =
      upload_parts local u course temporary prefix

  unfoldable pub upload_file : (Bytes → Bytes) → LocalFile → FileUpload → Course → Sftping c ℕ
  upload_file sha256 local u course = do
    fail_if course.ended_before (0, context)
    fail_if (not local.is_regular) (failed local_changed)
    fail_if (not local.opens) (failed (local_unread false))
    check (mkdir_all (path_dir u.destination)) (failed write_failed)
    with_part_path local u course (resumable_upload_path sha256 local u.destination)
