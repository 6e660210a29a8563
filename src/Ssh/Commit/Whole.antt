-- ===== src/Ssh/Commit/Whole.antt =====
-- The whole of `uploadFile`: what it leaves at its destination, and at the other paths.
use lab_remote_go.Common.{
  ℕ, ◌<◌, ◌≤◌, ◌≡◌, ◌≢◌, refl, sym, true, false, not, Option, none, some, length, Bytes, ◌⊎◌, inl,
  inr,
}
use lab_remote_go.Common.Results.{Result, err, ok}
use lab_remote_go.Common.Texts.{Text}
use lab_remote_go.Common.Paths.{path_dir}
use lab_remote_go.Ssh.Actions.{
  Action, Any, ◌>>=◌, Triple, next-Triple, or_fail-Triple, Triple-weaken, check, fail_if,
  fail_if-Triple,
}
use lab_remote_go.Ssh.Sftp.{Sftp, Node, HasBytes, IsLawful}
use lab_remote_go.Ssh.Commit.{
  LocalFile, FileUpload, Course, Failure, context, failed, write_failed, local_changed,
  local_unread, resumable_upload_path, prepare,
}
use lab_remote_go.Ssh.Commit.Transfer.{original_bytes, transfer_part}
use lab_remote_go.Ssh.Commit.Rename.{commit, upload_parts, with_part_path, upload_file}
use lab_remote_go.Ssh.Commit.Parts.{At, IsSpared, IsReady, prepare-Ready}
use lab_remote_go.Ssh.Commit.Contents.{resumed, transfer_part-HasBytes}
use lab_remote_go.Ssh.Commit.Atomic.{MayReplace, IsSettled, commit-Landed}

-- How much of `y`, which stood under the temporary name, the upload goes on with.
abbrev pub Resumes : FileUpload → Option Node → ℕ → Type 0
Resumes u y offset =
    (offset ≡ 0)
    ⊎ ((n : Node) × (u.resume ≡ true) × (y ≡ some n) × (n.size ≡ offset) × (offset ≤ u.size))

-- The whole file: the part of `y` that the upload goes on with, then the bytes of the local file.
abbrev pub IsWhole : LocalFile → FileUpload → Option Node → Option Node → Type 0
IsWhole local u y o =
    (offset : ℕ) × Resumes u y offset
    × HasBytes (resumed offset (original_bytes y) local.bytes) u.size o

-- What may stand at the destination, where `x` stood, after a result.
abbrev pub IsOutcome :
    LocalFile → FileUpload → Option Node → Option Node → Option Node → Result Failure ℕ → Type 0
IsOutcome local u x y o (ok written) = IsWhole local u y o × MayReplace u.overwrite x
IsOutcome local u x y o (err e) =
    (o ≡ x)
    ⊎ ((IsWhole local u y o × MayReplace u.overwrite x) ⊎ ((o ≡ none) × (u.overwrite ≡ true)))

IsReady-Resumes :
    (u : FileUpload) (y : Option Node) (offset : ℕ) (o : Option Node)
    → IsReady u.size u.resume y offset o
    → Resumes u y offset
IsReady-Resumes u y offset o (inl (e, plain)) = inl e
IsReady-Resumes u y offset o (inr (n, r, e, f, kind, size, le)) = inr (n, r, e, size, le)

module _ (c : Sftp) (lawful : IsLawful c) (local : LocalFile) (u : FileUpload) (course : Course)
    (temporary prefix : Text) where
  abbrev d : Text
  d = u.destination

  module _ (x y : Option Node) (apart : temporary ≢ d)
      (spared : IsSpared (path_dir d) prefix temporary d) where
    abbrev May : c.Server → Type 0
    May t = IsOutcome local u x y (c.node t d) (err (0, context))

    abbrev Must : ℕ → c.Server → Type 0
    Must written t = IsOutcome local u x y (c.node t d) (ok written)

    upload_parts-Outcome :
        (s : c.Server)
        → At c d x s
        → At c temporary y s
        → Triple May Must (upload_parts c local u course temporary prefix s)
    upload_parts-Outcome s h i =
        let away : d ≢ temporary = λ e. apart (sym e) in
        next-Triple (At c d x) May
          (λ found t. IsReady u.size u.resume y found.1 (c.node t temporary)) Must
          (prepare c u temporary prefix s)
          (λ found.
            transfer_part c local u course temporary found.1
            >>= commit c u course temporary found.0)
          (prepare-Ready c lawful u temporary d x y away prefix s spared h i) (λ t e. inl e)
          (λ found t e ready.
            let f = resumed found.1 (original_bytes y) local.bytes in
            let resumes = IsReady-Resumes u y found.1 (c.node t temporary) ready in
            next-Triple (At c d x) May (λ _ v. HasBytes f u.size (c.node v temporary)) Must
              (transfer_part c local u course temporary found.1 t)
              (commit c u course temporary found.0)
              (transfer_part-HasBytes c lawful local u course temporary d x away y found.1 t e
                ready)
              (λ v j. inl j)
              (λ written v j whole.
                Triple-weaken (λ w. IsSettled u.overwrite x f u.size (c.node w d)) May
                  (λ _ w. HasBytes f u.size (c.node w d) × MayReplace u.overwrite x) Must
                  (commit c u course temporary found.0 written v)
                  (commit-Landed c lawful u temporary apart x f course found.0 written v j whole)
                  (λ w settled. elim settled [
                    | inl same ↦ inl same
                    | inr (inl (there, may)) ↦ inr (inl ((found.1, resumes, there), may))
                    | inr (inr gone) ↦ inr (inr gone)
                  ])
                  (λ a w _ l. ((found.1, resumes, l.0), l.1))))

    Triple-Outcome :
        (r : c.Server × Result Failure ℕ)
        → Triple May Must r
        → IsOutcome local u x y (c.node r.0 d) r.1
    Triple-Outcome (t, ok written) h = h.1
    Triple-Outcome (t, err e) h = h

  -- the checks before the first write
  pub upload_file-from :
      (I : c.Server → Type 0) (Q : ℕ → c.Server → Type 0) (sha256 : Bytes → Bytes) (s : c.Server)
      → resumable_upload_path sha256 local d ≡ ok (temporary, prefix)
      → I s
      → I (c.mkdir_all (path_dir d) s).0
      → Triple I Q (upload_parts c local u course temporary prefix (c.mkdir_all (path_dir d) s).0)
      → Triple I Q (upload_file c sha256 local u course s)
  unfolding upload_file
  upload_file-from I Q sha256 s named i made h =
      let making : Action c.Server Failure ℕ =
        check (c.mkdir_all (path_dir d)) (failed write_failed) >>= λ _.
        with_part_path c local u course (resumable_upload_path sha256 local d) in
      let Same : c.Server → Type 0 = λ t. t ≡ s in
      let same : (t : c.Server) → Same t → I t = λ t e. rw e i in
      next-Triple Same I Any Q (fail_if course.ended_before (0, context) s)
        (λ _. fail_if (not local.is_regular) (failed local_changed) >>= λ _.
          fail_if (not local.opens) (failed (local_unread false)) >>= λ _. making)
        (fail_if-Triple Same course.ended_before (0, context) s refl) same
        (λ _ t e _.
          next-Triple Same I Any Q (fail_if (not local.is_regular) (failed local_changed) t)
            (λ _. fail_if (not local.opens) (failed (local_unread false)) >>= λ _. making)
            (fail_if-Triple Same (not local.is_regular) (failed local_changed) t e) same
            (λ _ t' e' _.
              next-Triple Same I Any Q (fail_if (not local.opens) (failed (local_unread false)) t')
                (λ _. making)
                (fail_if-Triple Same (not local.opens) (failed (local_unread false)) t' e') same
                (λ _ v ev _. rw ev (
                  next-Triple (λ w. w ≡ (c.mkdir_all (path_dir d) s).0) I Any Q
                    (check (c.mkdir_all (path_dir d)) (failed write_failed) s)
                    (λ _. with_part_path c local u course (resumable_upload_path sha256 local d))
                    (or_fail-Triple (λ w. w ≡ (c.mkdir_all (path_dir d) s).0) Any
                      (c.mkdir_all (path_dir d) s) (failed write_failed) refl (λ _ _. tt))
                    (λ w ew. rw ew made) (λ _ w ew _. rw ew (rw named h))))))

  -- `uploadFile` leaves at its destination what was there, the whole file, or, where it overwrites and
  -- fails, nothing; when it reports success, the whole file. The local file has a fingerprint, the
  -- destination is none of its own stale parts, and both names are longer than their directory's.
  pub upload_file-Outcome :
      (sha256 : Bytes → Bytes) (s : c.Server)
      → resumable_upload_path sha256 local d ≡ ok (temporary, prefix)
      → temporary ≢ d
      → IsSpared (path_dir d) prefix temporary d
      → length (path_dir d) < length d
      → length (path_dir d) < length temporary
      → let out = upload_file c sha256 local u course s in
        IsOutcome local u (c.node s d) (c.node s temporary) (c.node out.0 d) out.1
  upload_file-Outcome sha256 s named apart spared long long_part =
      let x = c.node s d in
      let y = c.node s temporary in
      let t = (c.mkdir_all (path_dir d) s).0 in
      let old = lawful.mkdir_all_other (path_dir d) d s long in
      let part = lawful.mkdir_all_other (path_dir d) temporary s long_part in
      Triple-Outcome x y apart spared (upload_file c sha256 local u course s) (
        upload_file-from (May x y apart spared) (Must x y apart spared) sha256 s named (inl refl)
          (inl old) (upload_parts-Outcome x y apart spared t old part))
