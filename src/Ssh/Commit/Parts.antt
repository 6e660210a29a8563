-- ===== src/Ssh/Commit/Parts.antt =====
-- The preparation of the temporary file touches nothing but the parts of the same destination.
use lab_remote_go.Common.{
  ℕ, ◌≤◌, ◌≡◌, ◌≢◌, refl, sym, ◌∙◌, Bool, true, false, not, ◌||◌, List, [], ◌∷◌, Option, none, some,
  arith, if-rule, if◌then◌else◌, ltb, ◌⊎◌, inl, inr,
}
use lab_remote_go.Common.Results.{Result, err, ok}
use lab_remote_go.Common.Texts.{Text, member, text_eq, text_eq_refl}
use lab_remote_go.Common.Paths.{slash, has_prefix, path_join, path_dir}
use lab_remote_go.Ssh.Actions.{
  Action, pure, ◌>>=◌, Triple, next-Triple, or_fail-Triple, Triple-both, Any, attempt, check,
}
use lab_remote_go.Ssh.Sftp.{
  Sftp, Node, FileKind, regular, directory, symlink, special, SftpError, not_exist, op_unsupported,
  failure, NoSlash, IsPlain, IsLawful,
}
use lab_remote_go.Ssh.Commit.{
  FileUpload, Failure, failed, write_failed, is_regular_kind, removed, is_stale, remove_stale,
  clean_stale_upload_parts, mode_of, target_mode, resume_from, prepare,
}

-- A path that is not a stale part of the destination in `dir`.
abbrev pub IsSpared : Text → Text → Text → Text → Type 0
IsSpared dir prefix keep q =
    (name : Text)
    → member slash name ≡ false
    → has_prefix name prefix ≡ true
    → text_eq (path_join dir name) keep ≡ false
    → q ≢ path_join dir name

pub keep-IsSpared : (dir prefix keep : Text) → IsSpared dir prefix keep keep
keep-IsSpared dir prefix keep name plain p other same = absurd (
    let e : text_eq (path_join dir name) keep ≡ true = rw (← same) (text_eq_refl keep) in
    ground (arith, e))

-- The temporary file can be written from `offset` on: it starts anew, or what stood there before, `y`,
-- goes on.
abbrev pub IsReady : ℕ → Bool → Option Node → ℕ → Option Node → Type 0
IsReady size resume y offset o =
    ((offset ≡ 0) × IsPlain o)
    ⊎ ((n : Node) × (resume ≡ true)
        × (y ≡ some n)
        × (o ≡ some n)
        × (n.kind ≡ regular)
        × (n.size ≡ offset)
        × (offset ≤ size))

is_regular_kind_sound : (k : FileKind) → is_regular_kind k ≡ true → k ≡ regular
is_regular_kind_sound regular h = refl
is_regular_kind_sound directory h = absurd (cc)
is_regular_kind_sound symlink h = absurd (cc)
is_regular_kind_sound special h = absurd (cc)

or3_false : (a b d : Bool) → (not a || (not b || d)) ≡ false → (a ≡ true) × (b ≡ true) × (d ≡ false)
or3_false a b d h = ground arith

abbrev pub At : (c : Sftp) → Text → Option Node → c.Server → Type 0
At c q x s = c.node s q ≡ x

module _ (c : Sftp) (lawful : IsLawful c) where
  stale-name :
      (dir prefix keep : Text) (entry : Text × FileKind)
      → is_stale dir prefix keep entry ≡ true
      → (has_prefix entry.0 prefix ≡ true) × (text_eq (path_join dir entry.0) keep ≡ false)
  stale-name dir prefix keep entry h = ground arith

  removed-Triple :
      (I : c.Server → Type 0) (r : Result SftpError (Unit {0})) (s : c.Server)
      → I s
      → Triple I Any (removed c r s)
  removed-Triple I (ok u) s i = (i, tt)
  removed-Triple I (err not_exist) s i = (i, tt)
  removed-Triple I (err op_unsupported) s i = i
  removed-Triple I (err failure) s i = i

  remove_stale-spares :
      (dir prefix keep q : Text) (x : Option Node) (entries : List (Text × FileKind))
      → IsSpared dir prefix keep q
      → NoSlash entries
      → (s : c.Server) → At c q x s
      → Triple (At c q x) Any (remove_stale c dir prefix keep entries s)
  unfolding remove_stale
  remove_stale-spares dir prefix keep q x [] spared plain s h = (h, tt)
  remove_stale-spares dir prefix keep q x (entry ∷ rest) spared plain s h =
      let path = path_join dir entry.0 in
      let removing : Action c.Server Failure (Unit {0}) = attempt (c.remove path) >>= removed c in
      next-Triple (At c q x) (At c q x) Any Any
        ((if is_stale dir prefix keep entry then removing else pure tt) s)
        (λ _. remove_stale c dir prefix keep rest)
        (if-rule (λ (m : Action c.Server Failure (Unit {0})). Triple (At c q x) Any (m s))
          (is_stale dir prefix keep entry) removing (pure tt)
          (λ stale.
            let (p, other) = stale-name dir prefix keep entry stale in
            removed-Triple (At c q x) (c.remove path s).1 (c.remove path s).0
              (lawful.remove_other path q s (spared entry.0 plain.0 p other) ∙ h))
          (λ fresh. (h, tt)))
        (λ t i. i) (λ _ t i _. remove_stale-spares dir prefix keep q x rest spared plain.1 t i)

  clean-spares :
      (dir prefix keep q : Text) (x : Option Node)
      → IsSpared dir prefix keep q
      → (s : c.Server) → At c q x s
      → Triple (At c q x) Any (clean_stale_upload_parts c dir prefix keep s)
  unfolding clean_stale_upload_parts
  clean-spares dir prefix keep q x spared s h =
      next-Triple (At c q x) (At c q x) (λ entries t. NoSlash entries) Any
        (check (c.read_dir dir) (failed write_failed) s) (remove_stale c dir prefix keep)
        (or_fail-Triple (At c q x) (λ entries t. NoSlash entries) (c.read_dir dir s)
          (failed write_failed) (lawful.read_dir_same dir q s ∙ h)
          (λ a e. lawful.read_dir_names dir s a e))
        (λ t i. i)
        (λ entries t i plain. remove_stale-spares dir prefix keep q x entries spared plain t i)

  module _ (u : FileUpload) where
    target_mode-same :
        (q : Text) (x : Option Node) (s : c.Server)
        → At c q x s
        → Triple (At c q x) Any (target_mode c u s)
    target_mode-same q x s h =
        if-rule (λ (m : Action c.Server Failure ℕ). Triple (At c q x) Any (m s)) u.overwrite
          (attempt (c.lstat u.destination) >>= λ found. pure (mode_of found)) (pure 0o644)
          (λ _. (lawful.lstat_same u.destination q s ∙ h, tt)) (λ _. (h, tt))

    module _ (temporary q : Text) (x y : Option Node) (other : q ≢ temporary) where
      resume_from-Ready :
          (r : Result SftpError Node) (s : c.Server)
          → At c q x s
          → At c temporary y s
          → ((n : Node) → r ≡ ok n → y ≡ some n)
          → (r ≡ err not_exist → y ≡ none)
          → Triple
              (At c q x)
              (λ offset t. IsReady u.size u.resume y offset (c.node t temporary))
              (resume_from c u temporary r s)
      resume_from-Ready (ok partial) s h i found missing =
          if-rule
            (λ (m : Action c.Server Failure ℕ).
              Triple (At c q x) (λ offset t. IsReady u.size u.resume y offset (c.node t temporary))
                (m s))
            (not u.resume || (not (is_regular_kind partial.kind) || ltb u.size partial.size))
            (check (c.remove temporary) (failed write_failed) >>= λ _. pure 0) (pure partial.size)
            (λ _.
              next-Triple (At c q x) (At c q x) (λ _ t. At c temporary none t)
                (λ offset t. IsReady u.size u.resume y offset (c.node t temporary))
                (check (c.remove temporary) (failed write_failed) s) (λ _. pure 0)
                (or_fail-Triple (At c q x) (λ _ t. At c temporary none t) (c.remove temporary s)
                  (failed write_failed) (lawful.remove_other temporary q s other ∙ h)
                  (λ a e. lawful.remove_ok temporary s (e ∙ refl)))
                (λ t i. i) (λ a t j gone. (j, inl (refl, rw gone tt))))
            (λ keep.
              let (r, k, small) =
                or3_false u.resume (is_regular_kind partial.kind) (ltb u.size partial.size) keep in
              let e : y ≡ some partial = found partial refl in
              (
                h,
                inr (
                  partial,
                  r,
                  e,
                  i ∙ e,
                  is_regular_kind_sound partial.kind k,
                  refl,
                  ground arith,
                ),
              ))
      resume_from-Ready (err not_exist) s h i found missing =
          (h, inl (refl, rw (i ∙ missing refl) tt))
      resume_from-Ready (err op_unsupported) s h i found missing = h
      resume_from-Ready (err failure) s h i found missing = h

      abbrev Both : c.Server → Type 0
      Both t = At c q x t × At c temporary y t

      abbrev pub Ready : ℕ × ℕ → c.Server → Type 0
      Ready found t = IsReady u.size u.resume y found.1 (c.node t temporary)

      pub prepare-Ready :
          (prefix : Text) (s : c.Server)
          → IsSpared (path_dir u.destination) prefix temporary q
          → At c q x s
          → At c temporary y s
          → Triple (At c q x) Ready (prepare c u temporary prefix s)
      unfolding prepare
      prepare-Ready prefix s spared h i =
          let dir = path_dir u.destination in
          next-Triple Both (At c q x) Any Ready (clean_stale_upload_parts c dir prefix temporary s)
            (λ _. target_mode c u >>= λ mode. attempt (c.lstat temporary) >>= λ partial.
              resume_from c u temporary partial >>= λ offset. pure (mode, offset))
            (Triple-both (At c q x) (At c temporary y) Any _
              (clean-spares dir prefix temporary q x spared s h)
              (clean-spares dir prefix temporary temporary y (keep-IsSpared dir prefix temporary) s
                i))
            (λ t b. b.0)
            (λ _ t b _.
              next-Triple Both (At c q x) Any Ready (target_mode c u t)
                (λ mode. attempt (c.lstat temporary) >>= λ partial.
                  resume_from c u temporary partial >>= λ offset. pure (mode, offset))
                (Triple-both (At c q x) (At c temporary y) Any _ (target_mode-same q x t b.0)
                  (target_mode-same temporary y t b.1))
                (λ t' b'. b'.0)
                (λ mode t' b' _.
                  let answer = (c.lstat temporary t').1 in
                  let after = (c.lstat temporary t').0 in
                  let same = lawful.lstat_same temporary temporary t' in
                  next-Triple (At c q x) (At c q x)
                    (λ offset v. IsReady u.size u.resume y offset (c.node v temporary)) Ready
                    (resume_from c u temporary answer after) (λ offset. pure (mode, offset))
                    (resume_from-Ready answer after (lawful.lstat_same temporary q t' ∙ b'.0)
                      (same ∙ b'.1) (λ n e. sym (same ∙ b'.1) ∙ lawful.lstat_found temporary t' n e)
                      (λ e. sym (same ∙ b'.1) ∙ lawful.lstat_missing temporary t' e))
                    (λ v j. j) (λ offset v j r. (j, r))))
