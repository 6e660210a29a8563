-- ===== src/Ssh/Commit/Others.antt =====
-- What `uploadFile` leaves at the paths that it does not write.
use lab_remote_go.Common.{ℕ, ◌≡◌, ◌≢◌, refl, ◌∙◌, some, if-rule, if◌then◌else◌, Bytes}
use lab_remote_go.Common.Results.{Result, err, ok}
use lab_remote_go.Common.Texts.{Text}
use lab_remote_go.Common.Paths.{path_dir}
use lab_remote_go.Ssh.Actions.{
  Action, Any, pure, fail, ◌>>=◌, Triple, next-Triple, or_fail-Triple, attempt, check, fail_if,
  fail_if-Triple,
}
use lab_remote_go.Ssh.Sftp.{
  Sftp, Node, SftpError, not_exist, op_unsupported, failure, HasBytes, IsLawful,
}
use lab_remote_go.Ssh.Commit.{
  LocalFile, FileUpload, Course, Failure, app, context, write_failed, is_directory, upload_conflict,
  resumable_upload_path, prepare,
}
use lab_remote_go.Ssh.Commit.Transfer.{original_bytes, transfer_part}
use lab_remote_go.Ssh.Commit.Rename.{
  final_rename, make_room, replace, require_absent, commit, upload_parts, upload_file,
}
use lab_remote_go.Ssh.Commit.Parts.{At, IsSpared, IsReady, prepare-Ready}
use lab_remote_go.Ssh.Commit.Contents.{resumed, transfer_part-HasBytes}
use lab_remote_go.Ssh.Commit.Atomic.{HasBytes-IsPlain}
use lab_remote_go.Ssh.Commit.Whole.{upload_file-from}

module _ (c : Sftp) (lawful : IsLawful c) (local : LocalFile) (u : FileUpload) (course : Course)
    (temporary prefix : Text) where
  abbrev d : Text
  d = u.destination

  -- Every other path that is there stays as it is.
  module _ (q : Text) (n : Node) (not_part : q ≢ temporary) (not_d : q ≢ d)
      (spared : IsSpared (path_dir d) prefix temporary q) where
    abbrev Stays : c.Server → Type 0
    Stays = At c q (some n)

    final_rename-Stays :
        (written : ℕ) (s : c.Server)
        → Stays s
        → Triple Stays Any (final_rename c u temporary written s)
    final_rename-Stays written s h =
        next-Triple Stays Stays Any Any (check (c.rename temporary d) (written, app write_failed) s)
          (λ _. pure written)
          (or_fail-Triple Stays Any (c.rename temporary d s) (written, app write_failed)
            (lawful.rename_other temporary d q s not_part not_d ∙ h) (λ _ _. tt))
          (λ t i. i) (λ _ t i _. (i, tt))

    make_room-Stays :
        (written : ℕ) (r : Result SftpError Node) (s : c.Server)
        → Stays s
        → Triple Stays Any (make_room c u written r s)
    make_room-Stays written (ok info) s h =
        if-rule (λ (m : Action c.Server Failure (Unit {0})). Triple Stays Any (m s))
          (is_directory info.kind) (fail (written, app upload_conflict))
          (check (c.remove d) (written, app write_failed)) (λ _. h)
          (λ _.
            or_fail-Triple Stays Any (c.remove d s) (written, app write_failed)
              (lawful.remove_other d q s not_d ∙ h) (λ _ _. tt))
    make_room-Stays written (err not_exist) s h = (h, tt)
    make_room-Stays written (err op_unsupported) s h = h
    make_room-Stays written (err failure) s h = h

    replace-Stays :
        (written : ℕ) (r : Result SftpError (Unit {0})) (s : c.Server)
        → Stays s
        → Triple Stays Any (replace c u temporary written r s)
    replace-Stays written (ok done) s h = (h, tt)
    replace-Stays written (err e) s h =
        next-Triple Stays Stays Any Any (make_room c u written (c.lstat d s).1 (c.lstat d s).0)
          (λ _. final_rename c u temporary written)
          (make_room-Stays written (c.lstat d s).1 (c.lstat d s).0 (lawful.lstat_same d q s ∙ h))
          (λ t i. i) (λ _ t i _. final_rename-Stays written t i)

    require_absent-Stays :
        (written : ℕ) (r : Result SftpError Node) (s : c.Server)
        → Stays s
        → Triple Stays Any (require_absent c written r s)
    require_absent-Stays written (ok info) s h = h
    require_absent-Stays written (err not_exist) s h = (h, tt)
    require_absent-Stays written (err op_unsupported) s h = h
    require_absent-Stays written (err failure) s h = h

    commit-Stays :
        (f : ℕ → ℕ) (mode written : ℕ) (s : c.Server)
        → Stays s
        → HasBytes f u.size (c.node s temporary)
        → Triple Stays Any (commit c u course temporary mode written s)
    unfolding commit
    commit-Stays f mode written s h whole =
        let t = (c.chmod temporary mode s).0 in
        let v = (c.chtimes temporary u.mod_time t).0 in
        let h_v =
          lawful.chtimes_other temporary q u.mod_time t not_part (
            HasBytes-IsPlain f u.size (c.node t temporary)
              (lawful.chmod_self temporary mode s f u.size whole))
          ∙ (lawful.chmod_other temporary q mode s not_part
                (HasBytes-IsPlain f u.size (c.node s temporary) whole)
              ∙ h) in
        next-Triple Stays Stays Any Any (fail_if course.ended_after (written, context) v)
          (λ _.
            if u.overwrite
            then (attempt (c.posix_rename temporary d) >>= replace c u temporary written)
            else ((attempt (c.lstat d) >>= require_absent c written) >>= λ _.
                final_rename c u temporary written))
          (fail_if-Triple Stays course.ended_after (written, context) v h_v) (λ w i. i)
          (λ _ w i _.
            if-rule (λ (m : Action c.Server Failure ℕ). Triple Stays Any (m w)) u.overwrite
              (attempt (c.posix_rename temporary d) >>= replace c u temporary written)
              ((attempt (c.lstat d) >>= require_absent c written) >>= λ _.
                final_rename c u temporary written)
              (λ _.
                replace-Stays written (c.posix_rename temporary d w).1
                  (c.posix_rename temporary d w).0
                  (lawful.posix_rename_other temporary d q w not_part not_d ∙ i))
              (λ _.
                next-Triple Stays Stays Any Any
                  (require_absent c written (c.lstat d w).1 (c.lstat d w).0)
                  (λ _. final_rename c u temporary written)
                  (require_absent-Stays written (c.lstat d w).1 (c.lstat d w).0
                    (lawful.lstat_same d q w ∙ i))
                  (λ t' j. j) (λ _ t' j _. final_rename-Stays written t' j)))

    upload_parts-Stays :
        (s : c.Server)
        → Stays s
        → Triple Stays Any (upload_parts c local u course temporary prefix s)
    upload_parts-Stays s h =
        let y = c.node s temporary in
        next-Triple Stays Stays (λ found t. IsReady u.size u.resume y found.1 (c.node t temporary))
          Any (prepare c u temporary prefix s)
          (λ found.
            transfer_part c local u course temporary found.1
            >>= commit c u course temporary found.0)
          (prepare-Ready c lawful u temporary q (some n) y not_part prefix s spared h refl)
          (λ t i. i)
          (λ found t i ready.
            let f = resumed found.1 (original_bytes y) local.bytes in
            next-Triple Stays Stays (λ _ v. HasBytes f u.size (c.node v temporary)) Any
              (transfer_part c local u course temporary found.1 t)
              (commit c u course temporary found.0)
              (transfer_part-HasBytes c lawful local u course temporary q (some n) not_part y
                found.1 t i ready)
              (λ v j. j) (λ written v j whole. commit-Stays f found.0 written v j whole))

    Triple-Stays : (r : c.Server × Result Failure ℕ) → Triple Stays Any r → Stays r.0
    Triple-Stays (t, ok written) h = h.0
    Triple-Stays (t, err e) h = h

    -- `uploadFile` leaves a file that is neither its destination nor one of its parts as it was.
    pub upload_file-others :
        (sha256 : Bytes → Bytes) (s : c.Server)
        → resumable_upload_path sha256 local d ≡ ok (temporary, prefix)
        → c.node s q ≡ some n
        → c.node (upload_file c sha256 local u course s).0 q ≡ some n
    upload_file-others sha256 s named h =
        let t = (c.mkdir_all (path_dir d) s).0 in
        let made = lawful.mkdir_all_found (path_dir d) q s n h in
        Triple-Stays (upload_file c sha256 local u course s) (
          upload_file-from c lawful local u course temporary prefix Stays Any sha256 s named h made
            (upload_parts-Stays t made))
