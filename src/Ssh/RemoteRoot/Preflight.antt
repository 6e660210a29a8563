-- ===== src/Ssh/RemoteRoot/Preflight.antt =====
-- What a preflight that passes has seen.
use lab_remote_go.Common.{
  ◌≡◌, refl, sym, ◌∙◌, Bool, true, false, not, ◌||◌, List, [], ◌∷◌, Option, none, some, arith,
  ||_false, Bool-cases, ◌⊎◌, inl, inr,
}
use lab_remote_go.Common.Results.{Result, err, ok}
use lab_remote_go.Common.Texts.{Text}
use lab_remote_go.Common.Paths.{path_join}
use lab_remote_go.Ssh.Actions.{
  ◌>>=◌, Triple, next-Triple, Triple-weaken, fail_if, fail_if-Triple, attempt,
}
use lab_remote_go.Ssh.Sftp.{
  Sftp, Node, FileKind, regular, directory, symlink, special, SftpError, not_exist, op_unsupported,
  failure, IsLawful,
}
use lab_remote_go.Ssh.Commit.{UploadError, context, is_directory}
use lab_remote_go.Ssh.RemoteRoot.{
  Rooting, directory_free, file_free, check_entries, preflight_upload,
}

-- Nothing stands there, or a directory.
abbrev pub FreeForDirectory : Option Node → Type 0
FreeForDirectory o = (o ≡ none) ⊎ ((n : Node) × (o ≡ some n) × (n.kind ≡ directory))

-- Nothing stands there, or no directory and it may be replaced.
abbrev pub FreeForFile : Bool → Option Node → Type 0
FreeForFile overwrite o =
    (o ≡ none) ⊎ ((n : Node) × (o ≡ some n) × (overwrite ≡ true) × (is_directory n.kind ≡ false))

abbrev pub AllFree : (Option Node → Type 0) → (Text → Option Node) → Text → List Text → Type 0
AllFree Free node root [] = Unit {0}
AllFree Free node root (path ∷ rest) =
    Free (node (path_join root path)) × AllFree Free node root rest

is_directory_sound : (k : FileKind) → is_directory k ≡ true → k ≡ directory
is_directory_sound directory h = refl
is_directory_sound regular h = absurd (cc)
is_directory_sound symlink h = absurd (cc)
is_directory_sound special h = absurd (cc)

module _ (c : Sftp) (lawful : IsLawful c) (node : Text → Option Node) where
  -- Every path is as `node` says.
  abbrev Same : c.Server → Type 0
  Same s = (q : Text) → c.node s q ≡ node q

  -- The answers that let an entry pass are those of a free path.
  abbrev Admits :
      (Option Node → Type 0) → (Result SftpError Node → Rooting c.Server (Unit {0})) → Type 0
  Admits Free free =
      (o : Option Node) (r : Result SftpError Node) (s : c.Server)
      → ((n : Node) → r ≡ ok n → o ≡ some n)
      → (r ≡ err not_exist → o ≡ none)
      → Same s
      → Triple Same (λ _ t. Free o) (free r s)

  directory_free-Admits : Admits FreeForDirectory (directory_free c)
  directory_free-Admits o (ok info) s found missing same =
      elim (Bool-cases (is_directory info.kind)) [
        | inl yes_dir ↦
            rw yes_dir (same, inr (info, found info refl, is_directory_sound info.kind yes_dir))
        | inr other ↦ rw other same
      ]
  directory_free-Admits o (err not_exist) s found missing same = (same, inl (missing refl))
  directory_free-Admits o (err op_unsupported) s found missing same = same
  directory_free-Admits o (err failure) s found missing same = same

  file_free-Admits : (overwrite : Bool) → Admits (FreeForFile overwrite) (file_free c overwrite)
  file_free-Admits overwrite o (ok info) s found missing same =
      let refused = is_directory info.kind || not overwrite in
      elim (Bool-cases refused) [
        | inl bad ↦ rw bad same
        | inr good ↦
            let (file, may) = ||_false (is_directory info.kind) (not overwrite) good in
            rw good (same, inr (info, found info refl, ground (arith, may), file))
      ]
  file_free-Admits overwrite o (err not_exist) s found missing same = (same, inl (missing refl))
  file_free-Admits overwrite o (err op_unsupported) s found missing same = same
  file_free-Admits overwrite o (err failure) s found missing same = same

  module _ (Free : Option Node → Type 0)
      (free : Result SftpError Node → Rooting c.Server (Unit {0})) (admits : Admits Free free)
      (root : Text) (ends : Text → Bool) where
    one_entry :
        (path : Text) (s : c.Server)
        → Same s
        → Triple Same
            (λ _ t. Free (node (path_join root path)))
            ((attempt (c.lstat (path_join root path)) >>= free) s)
    one_entry path s same =
        let full = path_join root path in
        let t = (c.lstat full s).0 in
        let still : Same t = λ q. lawful.lstat_same full q s ∙ same q in
        admits (node full) (c.lstat full s).1 t
          (λ n e. sym (still full) ∙ lawful.lstat_found full s n e)
          (λ e. sym (still full) ∙ lawful.lstat_missing full s e) still

    check_entries-Free :
        (paths : List Text) (s : c.Server)
        → Same s
        → Triple Same (λ _ t. AllFree Free node root paths) (check_entries c free root ends paths s)
    unfolding check_entries
    check_entries-Free [] s same = (same, tt)
    check_entries-Free (path ∷ rest) s same =
        let looking : Rooting c.Server (Unit {0}) =
          attempt (c.lstat (path_join root path)) >>= free in
        next-Triple Same Same (λ _ t. Free (node (path_join root path)))
          (λ _ t. AllFree Free node root (path ∷ rest))
          ((fail_if (ends path) context >>= λ _. looking) s)
          (λ _. check_entries c free root ends rest)
          (next-Triple Same Same (λ _ t. Unit {0}) (λ _ t. Free (node (path_join root path)))
            (fail_if (ends path) context s) (λ _. looking)
            (fail_if-Triple Same (ends path) context s same) (λ t i. i)
            (λ _ t i _. one_entry path t i))
          (λ t i. i)
          (λ _ t i first.
            Triple-weaken Same Same (λ _ v. AllFree Free node root rest)
              (λ _ v. AllFree Free node root (path ∷ rest)) (check_entries c free root ends rest t)
              (check_entries-Free rest t i) (λ v j. j) (λ _ v _ others. (first, others)))

  preflight_upload-Triple :
      (root : Text) (directories files : List Text) (overwrite : Bool) (ends : Text → Bool)
      (s : c.Server)
      → Same s
      → Triple Same
          (λ _ t.
            AllFree FreeForDirectory node root directories
            × AllFree (FreeForFile overwrite) node root files)
          (preflight_upload c root directories files overwrite ends s)
  unfolding preflight_upload
  preflight_upload-Triple root directories files overwrite ends s same =
      let Dirs = AllFree FreeForDirectory node root directories in
      let Files = AllFree (FreeForFile overwrite) node root files in
      next-Triple Same Same (λ _ t. Dirs) (λ _ t. Dirs × Files)
        (check_entries c (directory_free c) root ends directories s)
        (λ _. check_entries c (file_free c overwrite) root ends files)
        (check_entries-Free FreeForDirectory (directory_free c) directory_free-Admits root ends
          directories s same)
        (λ t i. i)
        (λ _ t i dirs.
          Triple-weaken Same Same (λ _ v. Files) (λ _ v. Dirs × Files)
            (check_entries c (file_free c overwrite) root ends files t)
            (check_entries-Free (FreeForFile overwrite) (file_free c overwrite)
              (file_free-Admits overwrite) root ends files t i)
            (λ v j. j) (λ _ v _ fs. (dirs, fs)))

abbrev pub Passed :
    (c : Sftp) (node : Text → Option Node) (root : Text) (directories files : List Text)
    → Bool
    → Result UploadError (Unit {0})
    → Type 0
Passed c node root directories files overwrite (err e) = Unit {0}
Passed c node root directories files overwrite (ok u) =
    AllFree FreeForDirectory node root directories × AllFree (FreeForFile overwrite) node root files

Triple-Passed :
    (c : Sftp) (node : Text → Option Node) (root : Text) (directories files : List Text)
    (overwrite : Bool) (r : c.Server × Result UploadError (Unit {0}))
    → Triple
        (λ s. (q : Text) → c.node s q ≡ node q)
        (λ _ t.
          AllFree FreeForDirectory node root directories
          × AllFree (FreeForFile overwrite) node root files)
        r
    → ((q : Text) → c.node r.0 q ≡ node q) × Passed c node root directories files overwrite r.1
Triple-Passed c node root directories files overwrite (s, ok u) h = h
Triple-Passed c node root directories files overwrite (s, err e) h = (h, tt)

-- A preflight changes nothing; if it passes, each directory of the plan is absent or a directory, and
-- each file absent, or, if the upload overwrites, no directory.
pub preflight_upload-Passed :
    (c : Sftp) (lawful : IsLawful c) (root : Text) (directories files : List Text)
    (overwrite : Bool) (ends : Text → Bool) (s : c.Server)
    → let out = preflight_upload c root directories files overwrite ends s in
      ((q : Text) → c.node out.0 q ≡ c.node s q)
      × Passed c (c.node s) root directories files overwrite out.1
preflight_upload-Passed c lawful root directories files overwrite ends s =
    Triple-Passed c (c.node s) root directories files overwrite
      (preflight_upload c root directories files overwrite ends s)
      (preflight_upload-Triple c lawful (c.node s) root directories files overwrite ends s
        (λ q. refl))
