-- ===== src/Ssh/Commit/Contents.antt =====
-- What the temporary file holds when the transfer ends without an error.
use lab_remote_go.Common.{
  ℕ, ◌+◌, ◌-◌, ◌<◌, ◌≤◌, ◌≡◌, ◌≢◌, refl, ap, ◌∙◌, Bool, true, false, Option, none, some, arith,
  if-rule, if◌then◌else◌, ltb, ◌==◌, Bool-cases, inl, inr,
}
use lab_remote_go.Common.Results.{Result, err, ok}
use lab_remote_go.Common.Texts.{Text}
use lab_remote_go.Ssh.Actions.{
  Action, pure, fail, ◌>>=◌, Triple, next-Triple, or_fail-Triple, attempt, Any, check, fail_if,
}
use lab_remote_go.Ssh.Sftp.{
  Sftp, Node, regular, SftpError, not_exist, op_unsupported, failure, IsPlain, HasBytes, IsLawful,
}
use lab_remote_go.Ssh.Upload.{request_concurrency}
use lab_remote_go.Ssh.Upload.Success.{write_upload_file-ok}
use lab_remote_go.Ssh.Upload.Untouched.{write_upload_file-below}
use lab_remote_go.Ssh.Commit.{
  LocalFile, FileUpload, Course, Failure, app, failed, write_failed, local_unread, local_changed,
}
use lab_remote_go.Ssh.Commit.Transfer.{
  original_bytes, Copied, copy, reach, write_part, sync_fails, close_part, finish_part,
  close_and_fail, sought, seek_both, transfer_part,
}
use lab_remote_go.Ssh.Commit.Parts.{IsReady, At}

-- The bytes that an earlier attempt left, up to `offset`, then those of the local file.
abbrev pub resumed : ℕ → (ℕ → ℕ) → (ℕ → ℕ) → ℕ → ℕ
resumed offset earlier local p = if ltb p offset then earlier p else local p

-- a regular file of `offset` bytes, which are those of `earlier`
abbrev IsOpened : ℕ → (ℕ → ℕ) → Option Node → Type 0
IsOpened offset earlier o =
    (n : Node) × (o ≡ some n)
    × (n.kind ≡ regular)
    × (n.size ≡ offset)
    × ((p : ℕ) → p < offset → n.bytes p ≡ earlier p)

IsReady-IsPlain :
    (size : ℕ) (resume : Bool) (y : Option Node) (offset : ℕ) (o : Option Node)
    → IsReady size resume y offset o
    → IsPlain o
IsReady-IsPlain size resume y offset o (inl (e, plain)) = plain
IsReady-IsPlain size resume y offset o (inr (n, r, e, f, kind, g, h)) = rw f kind

IsReady-le :
    (size : ℕ) (resume : Bool) (y : Option Node) (offset : ℕ) (o : Option Node)
    → IsReady size resume y offset o
    → offset ≤ size
IsReady-le size resume y offset o (inl (e, plain)) = omega arith
IsReady-le size resume y offset o (inr (n, r, e, f, kind, g, h)) = h

IsOpened-IsPlain :
    (offset : ℕ) (earlier : ℕ → ℕ) (o : Option Node) → IsOpened offset earlier o → IsPlain o
IsOpened-IsPlain offset earlier o (n, e, kind, size, bytes) = rw e kind

HasBytes-IsOpened : (f earlier : ℕ → ℕ) (o : Option Node) → HasBytes f 0 o → IsOpened 0 earlier o
HasBytes-IsOpened f earlier none h = absurd h
HasBytes-IsOpened f earlier (some n) h = (n, refl, h.0, h.1, λ p lt. absurd (omega arith))

not_zero : (n : ℕ) → (n == 0) ≡ false → n ≢ 0
not_zero n h e = ground arith

-- The transfer's result, where it succeeds.
copy-resumed :
    (local : LocalFile) (u : FileUpload) (course : Course) (offset : ℕ) (original : ℕ → ℕ)
    → offset ≤ u.size
    → (copy local u course offset original).0.2 ≡ ok tt
    → (p : ℕ) → p < u.size
    → (copy local u course offset original).1 p ≡ resumed offset original local.bytes p
copy-resumed local u course offset original le done p lt =
    let workers = request_concurrency (u.size - offset) u.parallel_files in
    if-rule (λ b. (copy local u course offset original).1 p ≡ b) (ltb p offset) (original p)
      (local.bytes p)
      (λ below.
        write_upload_file-below local.bytes offset u.size workers original course.events p
          (ground arith))
      (λ above.
        (write_upload_file-ok local.bytes original offset u.size workers course.events done).1 p
          (ground arith) lt)

resumed-eq :
    (offset : ℕ) (f g local : ℕ → ℕ) (p : ℕ)
    → (p < offset → f p ≡ g p)
    → resumed offset f local p ≡ resumed offset g local p
resumed-eq offset f g local p h = elim (Bool-cases (ltb p offset)) [
  | inl below ↦ rw below (h (ground arith))
  | inr above ↦ rw above refl
]

module _ (c : Sftp) (lawful : IsLawful c) (local : LocalFile) (u : FileUpload) (course : Course)
    (temporary q : Text) (x : Option Node) (other : q ≢ temporary) where
  abbrev Kept : c.Server → Type 0
  Kept = At c q x

  open-new :
      (y : Option Node) (s : c.Server)
      → Kept s
      → IsPlain (c.node s temporary)
      → Triple Kept
          (λ _ t. IsOpened 0 (original_bytes y) (c.node t temporary))
          (check (c.open_file temporary true) (failed write_failed) s)
  open-new y s h plain =
      or_fail-Triple Kept (λ _ t. IsOpened 0 (original_bytes y) (c.node t temporary))
        (c.open_file temporary true s) (failed write_failed)
        (lawful.open_other temporary q true s other plain ∙ h)
        (λ a e.
          HasBytes-IsOpened (λ k. 0) (original_bytes y) _ (lawful.open_cut temporary s plain e))

  open-old :
      (y : Option Node) (s : c.Server) (n : Node)
      → Kept s
      → y ≡ some n
      → c.node s temporary ≡ some n
      → n.kind ≡ regular
      → Triple Kept
          (λ _ t. IsOpened n.size (original_bytes y) (c.node t temporary))
          (check (c.open_file temporary false) (failed write_failed) s)
  open-old y s n h e f kind =
      or_fail-Triple Kept (λ _ t. IsOpened n.size (original_bytes y) (c.node t temporary))
        (c.open_file temporary false s) (failed write_failed)
        (lawful.open_other temporary q false s other (rw f kind) ∙ h)
        (λ a done. (n, lawful.open_found temporary s n f kind done, kind, refl, λ p lt. rw e refl))

  open-Opened :
      (y : Option Node) (offset : ℕ) (s : c.Server)
      → Kept s
      → IsReady u.size u.resume y offset (c.node s temporary)
      → Triple Kept
          (λ _ t. IsOpened offset (original_bytes y) (c.node t temporary))
          (check (c.open_file temporary (offset == 0)) (failed write_failed) s)
  open-Opened y offset s h (inl (zero, plain)) = rw zero (open-new y s h plain)
  open-Opened y offset s h (inr (n, r, e, f, kind, size, le)) = elim (Bool-cases (offset == 0)) [
    | inl first ↦ let zero : offset ≡ 0 = ground arith in rw zero (open-new y s h (rw f kind))
    | inr later ↦ rw later (rw (← size) (open-old y s n h e f kind))
  ]

  -- the paths that a call leaves as they were
  abbrev Opened : ℕ → (ℕ → ℕ) → c.Server → Type 0
  Opened offset earlier s = Kept s × IsOpened offset earlier (c.node s temporary)

  sought-Opened :
      (offset : ℕ) (earlier : ℕ → ℕ) (r : Result SftpError (Unit {0})) (s : c.Server)
      → Opened offset earlier s
      → Triple (Opened offset earlier) Any (sought c temporary r s)
  sought-Opened offset earlier (ok u) s h = (h, tt)
  sought-Opened offset earlier (err e) s h =
      (lawful.close_same temporary q s ∙ h.0, rw (lawful.close_same temporary temporary s) h.1)

  seek-Opened :
      (offset : ℕ) (earlier : ℕ → ℕ) (s : c.Server)
      → Opened offset earlier s
      → Triple (Opened offset earlier) Any (seek_both c local temporary offset s)
  seek-Opened offset earlier s h =
      if-rule (λ (m : Action c.Server Failure (Unit {0})). Triple (Opened offset earlier) Any (m s))
        local.seeks (attempt (c.seek temporary offset) >>= sought c temporary)
        (close_and_fail c temporary (local_unread true))
        (λ _.
          sought-Opened offset earlier (c.seek temporary offset s).1 (c.seek temporary offset s).0 (
            lawful.seek_same temporary q offset s ∙ h.0,
            rw (lawful.seek_same temporary temporary offset s) h.1,
          ))
        (λ _.
          (lawful.close_same temporary q s ∙ h.0, rw (lawful.close_same temporary temporary s) h.1))

  module _ (f : ℕ → ℕ) where
    abbrev Done : c.Server → Type 0
    Done s = HasBytes f u.size (c.node s temporary)

    sync-end :
        (written : ℕ) (synced : Result SftpError (Unit {0})) (s : c.Server)
        → Kept s
        → Done s
        → Triple {E = Failure} Kept
            (λ _ t. Done t)
            ((fail_if (sync_fails synced) (written, app write_failed) >>= λ _. pure written) s)
    sync-end written (ok d) s h k = (h, k)
    sync-end written (err op_unsupported) s h k = (h, k)
    sync-end written (err not_exist) s h k = h
    sync-end written (err failure) s h k = h

    close_part-Done :
        (written : ℕ) (synced : Result SftpError (Unit {0})) (s : c.Server)
        → Kept s
        → Done s
        → Triple Kept (λ _ t. Done t) (close_part c temporary written synced s)
    close_part-Done written synced s h d =
        next-Triple Kept Kept (λ _ t. Done t) (λ _ t. Done t)
          (check (c.close temporary) (written, app write_failed) s)
          (λ _. fail_if (sync_fails synced) (written, app write_failed) >>= λ _. pure written)
          (or_fail-Triple Kept (λ _ t. Done t) (c.close temporary s) (written, app write_failed)
            (lawful.close_same temporary q s ∙ h)
            (λ a e. rw (lawful.close_same temporary temporary s) d))
          (λ t i. i) (λ _ t i dt. sync-end written synced t i dt)

    finish_part-Done :
        (offset : ℕ) (out : Copied) (s : c.Server)
        → Kept s
        → IsPlain (c.node s temporary)
        → (out.0.2 ≡ ok tt → Done s)
        → Triple Kept (λ _ t. Done t) (finish_part c u course temporary offset out s)
    finish_part-Done offset (((collector, count, err e), remote)) s h plain d =
        lawful.truncate_other temporary q (offset + count) (c.close temporary s).0 other
          (rw (lawful.close_same temporary temporary s) plain)
        ∙ (lawful.close_same temporary q s ∙ h)
    finish_part-Done offset (((collector, count, ok done), remote)) s h plain d =
        if-rule (λ (m : Action c.Server Failure ℕ). Triple Kept (λ _ t. Done t) (m s))
          (offset + count == u.size)
          (attempt (c.sync temporary) >>= close_part c temporary (offset + count))
          (attempt (c.close temporary) >>= λ _. fail (offset + count, app local_changed))
          (λ whole.
            close_part-Done (offset + count) (c.sync temporary s).1 (c.sync temporary s).0
              (lawful.sync_same temporary q s ∙ h)
              (rw (lawful.sync_same temporary temporary s) (d refl)))
          (λ short. lawful.close_same temporary q s ∙ h)

  copied-HasBytes :
      (offset : ℕ) (earlier : ℕ → ℕ) (s : c.Server)
      → offset ≤ u.size
      → (n : Node) → c.node s temporary ≡ some n
      → n.kind ≡ regular
      → n.size ≡ offset
      → ((p : ℕ) → p < offset → n.bytes p ≡ earlier p)
      → let out = copy local u course offset n.bytes in
        out.0.2 ≡ ok tt
        → HasBytes
            (resumed offset earlier local.bytes)
            u.size
            (c.node (c.write_bytes temporary out.1 (reach u course out.0.2) s) temporary)
  copied-HasBytes offset earlier s le n e kind size bytes done =
      let out = copy local u course offset n.bytes in
      rw (lawful.write_self temporary out.1 (reach u course out.0.2) s n e kind) (
        kind,
        rw done (ground arith),
        λ p lt.
            copy-resumed local u course offset n.bytes le done p lt
            ∙ resumed-eq offset n.bytes earlier local.bytes p (bytes p),
      )

  write-HasBytes :
      (offset : ℕ) (earlier original : ℕ → ℕ) (s : c.Server)
      → offset ≤ u.size
      → Opened offset earlier s
      → original ≡ original_bytes (c.node s temporary)
      → let out = copy local u course offset original in
        Triple Kept
          (λ _ t. HasBytes (resumed offset earlier local.bytes) u.size (c.node t temporary))
          (finish_part c u course temporary offset out
            (c.write_bytes temporary out.1 (reach u course out.0.2) s))
  write-HasBytes offset earlier original s le (h, (n, e, kind, size, bytes)) same =
      let there : original ≡ n.bytes = same ∙ ap original_bytes e in
      let out = copy local u course offset n.bytes in
      let end = reach u course out.0.2 in
      rw there (
        finish_part-Done (resumed offset earlier local.bytes) offset out
          (c.write_bytes temporary out.1 end s)
          (lawful.write_other temporary q out.1 end s other (rw e kind) ∙ h)
          (rw (lawful.write_self temporary out.1 end s n e kind) kind)
          (copied-HasBytes offset earlier s le n e kind size bytes))

  pub transfer_part-HasBytes :
      (y : Option Node) (offset : ℕ) (s : c.Server)
      → Kept s
      → IsReady u.size u.resume y offset (c.node s temporary)
      → Triple Kept
          (λ _ t.
            HasBytes (resumed offset (original_bytes y) local.bytes) u.size (c.node t temporary))
          (transfer_part c local u course temporary offset s)
  unfolding transfer_part
  transfer_part-HasBytes y offset s h ready =
      let earlier = original_bytes y in
      let le = IsReady-le u.size u.resume y offset (c.node s temporary) ready in
      let Q : ℕ → c.Server → Type 0 =
        λ _ t. HasBytes (resumed offset earlier local.bytes) u.size (c.node t temporary) in
      let seeking : Action c.Server Failure (Unit {0}) =
        if offset == 0 then pure tt else seek_both c local temporary offset in
      next-Triple Kept Kept (λ _ t. IsOpened offset earlier (c.node t temporary)) Q
        (check (c.open_file temporary (offset == 0)) (failed write_failed) s)
        (λ _. seeking >>= λ _.
          write_part c local u course temporary offset >>= finish_part c u course temporary offset)
        (open-Opened y offset s h ready) (λ t i. i)
        (λ _ t i opened.
          next-Triple (Opened offset earlier) Kept (λ _ v. Unit {0}) Q (seeking t)
            (λ _.
              write_part c local u course temporary offset
              >>= finish_part c u course temporary offset)
            (if-rule
              (λ (m : Action c.Server Failure (Unit {0})).
                Triple (Opened offset earlier) (λ _ v. Unit {0}) (m t))
              (offset == 0) (pure tt) (seek_both c local temporary offset) (λ _. ((i, opened), tt))
              (λ _. seek-Opened offset earlier t (i, opened)))
            (λ v j. j.0)
            (λ _ v j _.
              write-HasBytes offset earlier (original_bytes (c.node v temporary)) v le j refl))
