-- ===== src/Ssh/Commit.antt =====
-- internal/sshclient/upload.go, `uploadFile` and the functions below it: one file is written under a
-- temporary name that tells what it is made of, goes on where an earlier attempt stopped, and is renamed
-- when it is complete. Here are the names and the preparation; the children have the rest. The local file is `local`; SHA-256 is a parameter.
pub mod Transfer
pub mod Rename
pub mod Parts
pub mod Contents
pub mod Atomic
pub mod Whole
pub mod Others
pub mod Memory
mod Tests
use lab_remote_go.Common.{
  ℕ, ◌+◌, ◌-◌, min, Bool, true, false, not, ◌&&◌, ◌||◌, List, [], ◌∷◌, ◌++◌, Option, none, some,
  ltb, ◌==◌, if◌then◌else◌, take, Bytes,
}
use lab_remote_go.Common.Results.{Result, err, ok}
use lab_remote_go.Common.Texts.{Text, text_eq}
use lab_remote_go.Common.Paths.{codes, utf8, hex, decimal_text, has_prefix, path_join, path_dir}
use lab_remote_go.Model.Errors.{AppError, new_app_error}
use lab_remote_go.Ssh.Actions.{Action, pure, fail, ◌>>=◌, ◌>>◌, fail_if, check, attempt}
use lab_remote_go.Ssh.Sftp.{Sftp, Node, FileKind, regular, directory, SftpError, not_exist}
use lab_remote_go.Ssh.Upload.{Event}

-- an `AppError`, or the error of the context
pub data UploadError : Type 0 where
  app : AppError → UploadError
  context : UploadError

-- The local file as the calls on it find it; `reads_head` and `reads_tail` tell whether the two samples
-- of its fingerprint can be read.
pub record LocalFile : Type 0 where
  pub is_regular : Bool
  pub opens : Bool
  pub size : ℕ
  pub mod_time : ℕ
  pub bytes : ℕ → ℕ
  pub reads_head : Bool
  pub reads_tail : Bool
  pub seeks : Bool

pub record FileUpload : Type 0 where
  pub size : ℕ
  pub mod_time : ℕ
  pub destination : Text
  pub overwrite : Bool
  pub resume : Bool
  pub parallel_files : ℕ

-- What the surroundings do: when the context ends, how the transfer runs, and how far its writes reach
-- if it fails.
pub record Course : Type 0 where
  pub ended_before : Bool
  pub events : List Event
  pub reached : ℕ
  pub ended_in_transfer : Bool
  pub ended_after : Bool

abbrev pub sample_size : ℕ
sample_size = 65536

-- the bytes of a file from a position on
abbrev pub read_at : (ℕ → ℕ) → ℕ → ℕ → Bytes
read_at f from ℕ.zero = []
read_at f from (ℕ.suc n) = f from ∷ read_at f (from + 1) n

abbrev pub write_failed : AppError
write_failed = new_app_error "UPLOAD_REMOTE_WRITE_FAILED" "file_upload" true

abbrev pub path_failed : AppError
path_failed = new_app_error "UPLOAD_REMOTE_PATH_FAILED" "file_upload" true

abbrev pub local_changed : AppError
local_changed = new_app_error "UPLOAD_LOCAL_CHANGED" "file_upload" true

abbrev pub local_unread : Bool → AppError
local_unread retryable = new_app_error "UPLOAD_LOCAL_READ_FAILED" "file_upload" retryable

abbrev pub upload_conflict : AppError
upload_conflict = new_app_error "UPLOAD_CONFLICT" "file_upload" false

-- the error, with the count that is returned beside it
abbrev pub Failure : Type 0
Failure = ℕ × UploadError

abbrev pub failed : AppError → Failure
failed e = (0, app e)

abbrev pub is_directory : FileKind → Bool
is_directory directory = true
is_directory _ = false

abbrev pub is_regular_kind : FileKind → Bool
is_regular_kind regular = true
is_regular_kind _ = false

module _ (sha256 : Bytes → Bytes) where
  -- what is hashed: the size, the time, the first and the last sample
  abbrev pub fingerprint_input : LocalFile → Bytes
  fingerprint_input local =
      decimal_text local.size
      ++ codes ":"
      ++ decimal_text local.mod_time
      ++ codes ":"
      ++ read_at local.bytes 0 (min sample_size local.size)
      ++ read_at local.bytes (local.size - sample_size)
          (if ltb 0 (local.size - sample_size) then sample_size else 0)

  unfoldable pub local_file_fingerprint : LocalFile → Result (Unit {0}) Bytes
  local_file_fingerprint local =
      if (ltb 0 local.size && not local.reads_head)
        || (ltb sample_size local.size && not local.reads_tail)
      then err tt
      else ok (sha256 (fingerprint_input local))

  unfoldable pub part_prefix : Text → Text
  part_prefix destination =
      codes ".labremote-" ++ hex (take 6 (sha256 (utf8 destination))) ++ codes "-"

  abbrev pub part_path : Text → Bytes → Text
  part_path destination fingerprint =
      path_join (path_dir destination)
        (part_prefix destination ++ hex (take 6 fingerprint) ++ codes ".part")

  abbrev pub named : Text → Result (Unit {0}) Bytes → Result (Unit {0}) (Text × Text)
  named destination (err e) = err e
  named destination (ok fingerprint) =
      ok (part_path destination fingerprint, part_prefix destination)

  -- the temporary file, and the prefix of its siblings
  unfoldable pub resumable_upload_path : LocalFile → Text → Result (Unit {0}) (Text × Text)
  resumable_upload_path local destination = named destination (local_file_fingerprint local)

abbrev pub is_stale : Text → Text → Text → Text × FileKind → Bool
is_stale dir prefix keep entry =
    is_regular_kind entry.1
    && (has_prefix entry.0 prefix && not (text_eq (path_join dir entry.0) keep))

-- the permissions of the file that is replaced
abbrev pub mode_of : Result SftpError Node → ℕ
mode_of (ok existing) =
    if not (is_directory existing.kind) && not (existing.mode == 0) then existing.mode else 0o644
mode_of (err _) = 0o644

module _ (c : Sftp) where
  open c use {
    Server, lstat, mkdir_all, read_dir, remove, open_file, seek, write_bytes, truncate, sync, close,
    chmod, chtimes, posix_rename, rename,
  }

  abbrev pub Sftping : Type 0 → Type 0
  Sftping A = Action Server Failure A

  -- a removal that may find nothing
  abbrev pub removed : Result SftpError (Unit {0}) → Sftping (Unit {0})
  removed (ok u) = pure tt
  removed (err not_exist) = pure tt
  removed (err _) = fail (failed write_failed)

  unfoldable pub remove_stale : Text → Text → Text → List (Text × FileKind) → Sftping (Unit {0})
  remove_stale dir prefix keep [] = pure tt
  remove_stale dir prefix keep (entry ∷ rest) =
      let removing : Sftping (Unit {0}) = attempt (remove (path_join dir entry.0)) >>= removed in
      (if is_stale dir prefix keep entry then removing else pure tt)
      >> remove_stale dir prefix keep rest

  unfoldable pub clean_stale_upload_parts : Text → Text → Text → Sftping (Unit {0})
  clean_stale_upload_parts dir prefix keep =
      check (read_dir dir) (failed write_failed) >>= remove_stale dir prefix keep

  abbrev pub target_mode : FileUpload → Sftping ℕ
  target_mode u =
      if u.overwrite
      then (attempt (lstat u.destination) >>= λ found. pure (mode_of found))
      else pure 0o644

  -- the offset at which the transfer goes on
  abbrev pub resume_from : FileUpload → Text → Result SftpError Node → Sftping ℕ
  resume_from u temporary (ok partial) =
      if not u.resume || (not (is_regular_kind partial.kind) || ltb u.size partial.size)
      then (check (remove temporary) (failed write_failed) >>= λ _. pure 0)
      else pure partial.size
  resume_from u temporary (err not_exist) = pure 0
  resume_from u temporary (err _) = fail (failed path_failed)

  -- up to the offset: the target mode, and the offset
  unfoldable pub prepare : FileUpload → Text → Text → Sftping (ℕ × ℕ)
  prepare u temporary prefix = do
    clean_stale_upload_parts (path_dir u.destination) prefix temporary
    mode ← target_mode u
    partial ← attempt (lstat temporary)
    offset ← resume_from u temporary partial
    pure (mode, offset)
