-- ===== src/Ssh/RemoteRoot.antt =====
-- internal/sshclient/upload.go, `prepareRemoteRoot` and `preflightUpload`: the directory that an upload goes
-- to, and the check that nothing stands in its way. `ends` tells at which call of `ctx.Err` the context
-- has ended.
pub mod Preflight
mod Tests
use lab_remote_go.Common.{
  ℕ, zero, suc, Bool, true, false, not, ◌||◌, List, [], ◌∷◌, ◌==◌, if◌then◌else◌,
}
use lab_remote_go.Common.Results.{Result, err, ok}
use lab_remote_go.Common.Texts.{Text, trim_space, is_empty, text_eq}
use lab_remote_go.Common.Paths.{codes, has_prefix, trim_prefix, is_abs, path_clean, path_join}
use lab_remote_go.Model.Errors.{AppError, new_app_error}
use lab_remote_go.Ssh.Actions.{Action, pure, fail, ◌>>=◌, ◌>>◌, fail_if, check, attempt}
use lab_remote_go.Ssh.Sftp.{Sftp, Node, SftpError, not_exist}
use lab_remote_go.Ssh.Commit.{
  UploadError, app, context, write_failed, path_failed, upload_conflict, is_directory,
}

abbrev pub path_refused : AppError
path_refused = new_app_error "UPLOAD_REMOTE_PATH_FAILED" "file_upload" false

abbrev pub at_home : Text → Bool
at_home requested =
    is_empty requested || (text_eq requested (codes ".") || text_eq requested (codes "~"))

-- the absolute path that is meant; only `~user` is refused
unfoldable pub resolve_root : Text → Text → Result AppError Text
resolve_root home requested =
    if at_home requested
    then ok home
    else if has_prefix requested (codes "~/")
    then ok (path_join home (trim_prefix requested (codes "~/")))
    else if has_prefix requested (codes "~")
    then err path_refused
    else if not (is_abs requested)
    then ok (path_join home requested)
    else ok (path_clean requested)

abbrev pub Rooting : Type 0 → Type 0 → Type 0
Rooting S A = Action S UploadError A

module _ (c : Sftp) where
  open c use {Server, getwd, lstat, stat, real_path, mkdir_all}

  abbrev pub real_or : Text → Result SftpError Text → Rooting Server Text
  real_or requested (ok resolved) =
      pure (path_clean (if is_empty resolved then requested else resolved))
  real_or requested (err e) = pure (path_clean requested)

  abbrev pub require_directory : Result SftpError Node → Rooting Server (Unit {0})
  require_directory (ok info) = fail_if (not (is_directory info.kind)) (app path_refused)
  require_directory (err e) = fail (app path_refused)

  abbrev pub make_root : Result AppError Text → Rooting Server Text
  make_root (err e) = fail (app e)
  make_root (ok requested) = do
    check (mkdir_all requested) (app write_failed)
    (attempt (stat requested) >>= require_directory)
    attempt (real_path requested) >>= real_or requested

  unfoldable pub prepare_remote_root : Bool → Text → Rooting Server Text
  prepare_remote_root ended requested = do
    fail_if ended context
    home ← check getwd (app path_failed)
    make_root (resolve_root home (trim_space requested))

  abbrev pub directory_free : Result SftpError Node → Rooting Server (Unit {0})
  directory_free (ok info) = fail_if (not (is_directory info.kind)) (app upload_conflict)
  directory_free (err not_exist) = pure tt
  directory_free (err _) = fail (app path_failed)

  abbrev pub file_free : Bool → Result SftpError Node → Rooting Server (Unit {0})
  file_free overwrite (ok info) =
      fail_if (is_directory info.kind || not overwrite) (app upload_conflict)
  file_free overwrite (err not_exist) = pure tt
  file_free overwrite (err _) = fail (app path_failed)

  -- one loop: `free` looks at what stands at an entry's path; the context ends at the entry `ends`
  unfoldable pub check_entries :
      (Result SftpError Node → Rooting Server (Unit {0}))
      → Text
      → (Text → Bool)
      → List Text
      → Rooting Server (Unit {0})
  check_entries free root ends [] = pure tt
  check_entries free root ends (path ∷ rest) =
      fail_if (ends path) context
      >> (attempt (lstat (path_join root path)) >>= free)
      >> check_entries free root ends rest

  unfoldable pub preflight_upload :
      Text → List Text → List Text → Bool → (Text → Bool) → Rooting Server (Unit {0})
  preflight_upload root directories files overwrite ends =
      check_entries directory_free root ends directories
      >> check_entries (file_free overwrite) root ends files
