-- ===== src/Ssh/Commit/Atomic.antt =====
-- What stands at the destination when `uploadFile` returns, and at every other path.
use lab_remote_go.Common.{
  ℕ, ◌≡◌, ◌≢◌, refl, sym, ◌∙◌, Bool, true, Option, none, some, if-rule, if◌then◌else◌, ◌⊎◌, inl,
  inr,
}
use lab_remote_go.Common.Results.{Result, err, ok}
use lab_remote_go.Common.Texts.{Text}
use lab_remote_go.Ssh.Actions.{
  Action, pure, fail, ◌>>=◌, Triple, next-Triple, or_fail-Triple, attempt, check, fail_if,
  fail_if-Triple,
}
use lab_remote_go.Ssh.Sftp.{
  Sftp, Node, SftpError, not_exist, op_unsupported, failure, IsPlain, HasBytes, IsLawful,
}
use lab_remote_go.Ssh.Commit.{
  FileUpload, Course, Failure, app, context, write_failed, is_directory, upload_conflict,
}
use lab_remote_go.Ssh.Commit.Rename.{final_rename, make_room, replace, require_absent, commit}

-- The upload may stand at the destination: it may overwrite, or nothing stood there.
abbrev pub MayReplace : Bool → Option Node → Type 0
MayReplace overwrite x = (overwrite ≡ true) ⊎ (x ≡ none)

-- What was there, the whole new file, or, when it overwrites, nothing.
abbrev pub IsSettled : Bool → Option Node → (ℕ → ℕ) → ℕ → Option Node → Type 0
IsSettled overwrite x f size o =
    (o ≡ x) ⊎ ((HasBytes f size o × MayReplace overwrite x) ⊎ ((o ≡ none) × (overwrite ≡ true)))

none-IsSettled :
    (overwrite : Bool) (x : Option Node) (f : ℕ → ℕ) (size : ℕ) (o : Option Node)
    → MayReplace overwrite x
    → o ≡ none
    → IsSettled overwrite x f size o
none-IsSettled overwrite x f size o (inl over) e = inr (inr (e, over))
none-IsSettled overwrite x f size o (inr gone) e = inl (e ∙ sym gone)

pub HasBytes-IsPlain : (f : ℕ → ℕ) (size : ℕ) (o : Option Node) → HasBytes f size o → IsPlain o
HasBytes-IsPlain f size none h = tt
HasBytes-IsPlain f size (some n) h = h.0

module _ (c : Sftp) (lawful : IsLawful c) (u : FileUpload) (temporary : Text)
    (apart : temporary ≢ u.destination) (x : Option Node) (f : ℕ → ℕ) where
  abbrev d : Text
  d = u.destination

  abbrev pub Settled : c.Server → Type 0
  Settled s = IsSettled u.overwrite x f u.size (c.node s d)

  abbrev pub Landed : {A : Type 0} → A → c.Server → Type 0
  Landed a s = HasBytes f u.size (c.node s d) × MayReplace u.overwrite x

  -- The complete file waits under the temporary name, or was moved though an error came back.
  abbrev IsWaiting : Option Node → Type 0
  IsWaiting o = HasBytes f u.size o ⊎ (o ≡ none)

  renamed-Settled :
      (o : Option Node) (e : MayReplace u.overwrite x) (t : Option Node)
      → IsWaiting t
      → o ≡ t
      → IsSettled u.overwrite x f u.size o
  renamed-Settled o may t (inl whole) e = inr (inl (rw e whole, may))
  renamed-Settled o may t (inr gone) e = none-IsSettled u.overwrite x f u.size o may (e ∙ gone)

  landed :
      (o t : Option Node) (n : Node) → IsWaiting t → t ≡ some n → o ≡ some n → HasBytes f u.size o
  landed o t n (inl whole) e g = let h : HasBytes f u.size (some n) = rw e at whole in rw g h
  landed o t n (inr gone) e g = absurd (cc)

  final_rename-Landed :
      (written : ℕ) (s : c.Server)
      → MayReplace u.overwrite x
      → c.node s d ≡ none
      → IsWaiting (c.node s temporary)
      → Triple Settled Landed (final_rename c u temporary written s)
  final_rename-Landed written s may gone waiting =
      next-Triple Settled Settled Landed Landed
        (check (c.rename temporary d) (written, app write_failed) s) (λ _. pure written)
        (or_fail-Triple Settled Landed (c.rename temporary d s) (written, app write_failed)
          (elim (lawful.rename_self temporary d s apart) [
            | inl same ↦ none-IsSettled u.overwrite x f u.size _ may (same ∙ gone)
            | inr (_, moved) ↦ renamed-Settled _ may (c.node s temporary) waiting moved
          ])
          (λ a e.
            let (n, there, here) = lawful.rename_ok temporary d s apart e in
            (landed _ (c.node s temporary) n waiting there here, may)))
        (λ t i. i) (λ a t i l. (i, l))

  -- A server that cannot replace: `dest` is what stands at the destination.
  make_room-Settled :
      (written : ℕ) (answer : Result SftpError Node) (s : c.Server)
      → u.overwrite ≡ true
      → Settled s
      → IsWaiting (c.node s temporary)
      → (answer ≡ err not_exist → c.node s d ≡ none)
      → Triple Settled
          (λ _ t. (c.node t d ≡ none) × IsWaiting (c.node t temporary))
          (make_room c u written answer s)
  make_room-Settled written (ok info) s over settled waiting missing =
      if-rule
        (λ (m : Action c.Server Failure (Unit {0})).
          Triple Settled (λ _ t. (c.node t d ≡ none) × IsWaiting (c.node t temporary)) (m s))
        (is_directory info.kind) (fail (written, app upload_conflict))
        (check (c.remove d) (written, app write_failed)) (λ _. settled)
        (λ _.
          or_fail-Triple Settled (λ _ t. (c.node t d ≡ none) × IsWaiting (c.node t temporary))
            (c.remove d s) (written, app write_failed)
            (elim (lawful.remove_self d s) [
              | inl same ↦ rw same settled
              | inr gone ↦ inr (inr (gone, over))
            ])
            (λ a e. (
              lawful.remove_ok d s (e ∙ refl),
              rw (lawful.remove_other d temporary s apart) waiting,
            )))
  make_room-Settled written (err not_exist) s over settled waiting missing =
      (settled, (missing refl, waiting))
  make_room-Settled written (err op_unsupported) s over settled waiting missing = settled
  make_room-Settled written (err failure) s over settled waiting missing = settled

  replace-Landed :
      (written : ℕ) (s : c.Server)
      → u.overwrite ≡ true
      → c.node s d ≡ x
      → HasBytes f u.size (c.node s temporary)
      → Triple Settled Landed
          ((attempt (c.posix_rename temporary d) >>= replace c u temporary written) s)
  replace-Landed written s over old whole =
      let t = (c.posix_rename temporary d s).0 in
      let answer = (c.posix_rename temporary d s).1 in
      by_answer answer t
        (elim (lawful.posix_rename_self temporary d s apart) [
          | inl (same, kept) ↦ inl (same ∙ old)
          | inr (moved, gone) ↦ inr (inl (rw moved whole, inl over))
        ])
        (elim (lawful.posix_rename_self temporary d s apart) [
          | inl (same, kept) ↦ inl (rw kept whole)
          | inr (moved, gone) ↦ inr gone
        ])
        (λ e. (rw (lawful.posix_rename_ok temporary d s apart e) whole, inl over))
    where
      by_answer :
          (r : Result SftpError (Unit {0})) (t : c.Server)
          → Settled t
          → IsWaiting (c.node t temporary)
          → (r ≡ ok tt → Landed written t)
          → Triple Settled Landed (replace c u temporary written r t)
      by_answer (ok done) t settled waiting l = (settled, l refl)
      by_answer (err e) t settled waiting l =
          let v = (c.lstat d t).0 in
          let answer = (c.lstat d t).1 in
          next-Triple Settled Settled (λ _ w. (c.node w d ≡ none) × IsWaiting (c.node w temporary))
            Landed (make_room c u written answer v) (λ _. final_rename c u temporary written)
            (make_room-Settled written answer v over (rw (lawful.lstat_same d d t) settled)
              (rw (lawful.lstat_same d temporary t) waiting) (lawful.lstat_missing d t))
            (λ w i. i) (λ _ w i r. final_rename-Landed written w (inl over) r.0 r.1)

  require_absent-Settled :
      (written : ℕ) (r : Result SftpError Node) (s : c.Server)
      → Settled s
      → (r ≡ err not_exist → c.node s d ≡ none)
      → Triple Settled (λ _ t. (c.node t d ≡ none) × (t ≡ s)) (require_absent c written r s)
  require_absent-Settled written (ok info) s settled missing = settled
  require_absent-Settled written (err not_exist) s settled missing = (settled, (missing refl, refl))
  require_absent-Settled written (err op_unsupported) s settled missing = settled
  require_absent-Settled written (err failure) s settled missing = settled

  add-Landed :
      (written : ℕ) (s : c.Server)
      → c.node s d ≡ x
      → HasBytes f u.size (c.node s temporary)
      → Triple Settled Landed (
          ((attempt (c.lstat d) >>= require_absent c written) >>= λ _.
          final_rename c u temporary written)
            s)
  add-Landed written s old whole =
      let v = (c.lstat d s).0 in
      let answer = (c.lstat d s).1 in
      let same = lawful.lstat_same d d s in
      next-Triple Settled Settled (λ _ t. (c.node t d ≡ none) × (t ≡ v)) Landed
        (require_absent c written answer v) (λ _. final_rename c u temporary written)
        (require_absent-Settled written answer v (inl (same ∙ old)) (lawful.lstat_missing d s))
        (λ t i. i)
        (λ _ t i r.
          final_rename-Landed written t (inr (sym old ∙ (sym same ∙ rw (← r.1) r.0))) r.0
            (inl (rw r.1 (rw (lawful.lstat_same d temporary s) whole))))

  pub commit-Landed :
      (course : Course) (mode written : ℕ) (s : c.Server)
      → c.node s d ≡ x
      → HasBytes f u.size (c.node s temporary)
      → Triple Settled Landed (commit c u course temporary mode written s)
  unfolding commit
  commit-Landed course mode written s old whole =
      let t = (c.chmod temporary mode s).0 in
      let v = (c.chtimes temporary u.mod_time t).0 in
      let whole_t = lawful.chmod_self temporary mode s f u.size whole in
      let whole_v = lawful.chtimes_self temporary u.mod_time t f u.size whole_t in
      let plain = HasBytes-IsPlain f u.size (c.node s temporary) whole in
      let plain_t = HasBytes-IsPlain f u.size (c.node t temporary) whole_t in
      let away : d ≢ temporary = λ e. apart (sym e) in
      let old_v : c.node v d ≡ x =
        lawful.chtimes_other temporary d u.mod_time t away plain_t
        ∙ (lawful.chmod_other temporary d mode s away plain ∙ old) in
      next-Triple (λ w. w ≡ v) Settled (λ _ w. Unit {0}) Landed
        (fail_if course.ended_after (written, context) v)
        (λ _.
          if u.overwrite
          then (attempt (c.posix_rename temporary d) >>= replace c u temporary written)
          else ((attempt (c.lstat d) >>= require_absent c written) >>= λ _.
              final_rename c u temporary written))
        (fail_if-Triple (λ w. w ≡ v) course.ended_after (written, context) v refl)
        (λ w e. inl (rw e old_v))
        (λ _ w e _.
          if-rule (λ (m : Action c.Server Failure ℕ). Triple Settled Landed (m w)) u.overwrite
            (attempt (c.posix_rename temporary d) >>= replace c u temporary written)
            ((attempt (c.lstat d) >>= require_absent c written) >>= λ _.
              final_rename c u temporary written)
            (λ over. replace-Landed written w over (rw e old_v) (rw e whole_v))
            (λ kept. add-Landed written w (rw e old_v) (rw e whole_v)))
