-- ===== src/Ssh/Commit/Memory.antt =====
-- A server in memory that answers every call and cannot replace a file by a rename: it meets the laws.
use lab_remote_go.Common.{
  ℕ, ◌<◌, max, ◌≡◌, ◌≢◌, refl, ap, ◌∙◌, Bool, true, false, List, [], Option, none, some, arith,
  if◌then◌else◌, length, ◌⊎◌, inl, inr, Bool-cases,
}
use mathlib.Core.Path.{subst}
use lab_remote_go.Common.Results.{Result, err, ok}
use lab_remote_go.Common.Texts.{Text, text_eq, text_eq_sound, text_eq_refl}
use lab_remote_go.Common.Paths.{codes}
use lab_remote_go.Ssh.Sftp.{
  Sftp, Node, regular, directory, SftpError, not_exist, op_unsupported, failure, FileKind, NoSlash,
  HasBytes, IsLawful,
}

abbrev pub Files : Type 0
Files = Text → Option Node

abbrev pub put : Text → Option Node → Files → Files
put p x s = λ q. if text_eq q p then x else s q

abbrev answer : Option Node → Result SftpError Node
answer none = err not_exist
answer (some n) = ok n

abbrev pub text_node : ℕ → (ℕ → ℕ) → Node
text_node size bytes = record { kind = regular; mode = 0o644; size = size; bytes = bytes }

abbrev or_directory : Option Node → Option Node
or_directory none = some (record { kind = directory; mode = 0o755; size = 0; bytes = λ p. 0 })
or_directory (some n) = some n

-- an opened file: it is made, or cut if `cut`
abbrev opened : Bool → Option Node → Option Node
opened cut none = some (text_node 0 (λ p. 0))
opened true (some n) = some (record n { kind = regular; size = 0 })
opened false (some n) = some n

abbrev extended : (ℕ → ℕ) → ℕ → Option Node → Option Node
extended f end none = none
extended f end (some n) = some (record n { size = max n.size end; bytes = f })

-- A rename needs a file and a free name.
abbrev move : Text → Text → Option Node → Option Node → Files → Files × Result SftpError (Unit {0})
move p r none x s = (s, err not_exist)
move p r (some n) (some m) s = (s, err failure)
move p r (some n) none s = (put r (some n) (put p none s), ok tt)

abbrev pub memory_sftp : Sftp
memory_sftp = record {
  Server = Files;
  node = λ s q. s q;
  getwd = λ s. (s, ok (codes "/home"));
  lstat = λ p s. (s, answer (s p));
  stat = λ p s. (s, answer (s p));
  real_path = λ p s. (s, ok p);
  mkdir_all = λ p s. (put p (or_directory (s p)) s, ok tt);
  read_dir = λ p s. (s, ok []);
  remove = λ p s. (put p none s, ok tt);
  open_file = λ p cut s. (put p (opened cut (s p)) s, ok tt);
  seek = λ p k s. (s, ok tt);
  write_bytes = λ p f end s. put p (extended f end (s p)) s;
  truncate = λ p k s. (s, err failure);
  sync = λ p s. (s, err op_unsupported);
  close = λ p s. (s, ok tt);
  chmod = λ p mode s. (s, err failure);
  chtimes = λ p time s. (s, ok tt);
  posix_rename = λ p r s. (s, err op_unsupported);
  rename = λ p r s. move p r (s p) (s r) s;
}

put_other : (p q : Text) (x : Option Node) (s : Files) → q ≢ p → put p x s q ≡ s q
put_other p q x s ne = elim (Bool-cases (text_eq q p)) [
  | inl same ↦ absurd (ne (text_eq_sound q p same))
  | inr other ↦ rw other refl
]

put_self : (p : Text) (x : Option Node) (s : Files) → put p x s p ≡ x
put_self p x s = rw (text_eq_refl p) refl

longer-ne : (p q : Text) → length p < length q → q ≢ p
longer-ne p q lt e = let same : length q ≡ length p = ap length e in omega arith

answer-ok : (o : Option Node) (n : Node) → answer o ≡ ok n → o ≡ some n
answer-ok none n h = absurd (cc)
answer-ok (some m) n h = ground arith

answer-missing : (o : Option Node) → answer o ≡ err not_exist → o ≡ none
answer-missing none h = refl
answer-missing (some m) h = absurd (cc)

mkdir-found :
    (p q : Text) (s : Files) (n : Node) → s q ≡ some n → put p (or_directory (s p)) s q ≡ some n
mkdir-found p q s n h = elim (Bool-cases (text_eq q p)) [
  | inl same ↦ let e : s p ≡ some n = rw (← text_eq_sound q p same) h in rw same (rw e refl)
  | inr other ↦ rw other h
]

opened-cut : (o : Option Node) → HasBytes (λ k. 0) 0 (opened true o)
opened-cut none = (refl, refl, λ p lt. absurd (omega arith))
opened-cut (some n) = (refl, refl, λ p lt. absurd (omega arith))

move_other :
    (p r q : Text) (o x : Option Node) (s : Files) → q ≢ p → q ≢ r → (move p r o x s).0 q ≡ s q
move_other p r q none x s ne nr = refl
move_other p r q (some n) (some m) s ne nr = refl
move_other p r q (some n) none s ne nr =
    put_other r q (some n) (put p none s) nr ∙ put_other p q none s ne

move_self :
    (p r : Text) (o x : Option Node) (s : Files)
    → s r ≡ x
    → ((move p r o x s).0 r ≡ x) ⊎ ((x ≡ none) × ((move p r o x s).0 r ≡ o))
move_self p r none x s e = inl e
move_self p r (some n) (some m) s e = inl e
move_self p r (some n) none s e = inr (refl, put_self r (some n) (put p none s))

move-ok :
    (p r : Text) (o x : Option Node) (s : Files)
    → (move p r o x s).1 ≡ ok tt
    → (n : Node) × (o ≡ some n) × ((move p r o x s).0 r ≡ some n)
move-ok p r none x s h = absurd (cc)
move-ok p r (some n) (some m) s h = absurd (cc)
move-ok p r (some n) none s h = (n, refl, put_self r (some n) (put p none s))

names :
    {entries : List (Text × FileKind)}
    → ◌≡◌ {A = Result SftpError (List (Text × FileKind))} (ok []) (ok entries)
    → [] ≡ entries
names e = ground arith

pub memory_sftp-IsLawful : IsLawful memory_sftp
memory_sftp-IsLawful = record {
  lstat_same = λ p q s. refl;
  lstat_found = λ p s n e. answer-ok (s p) n e;
  lstat_missing = λ p s e. answer-missing (s p) e;
  read_dir_same = λ p q s. refl;
  read_dir_names = λ p s entries e. subst NoSlash (names e) tt;
  seek_same = λ p q k s. refl;
  sync_same = λ p q s. refl;
  close_same = λ p q s. refl;
  mkdir_all_other = λ p q s lt. put_other p q (or_directory (s p)) s (longer-ne p q lt);
  mkdir_all_found = λ p q s n e. mkdir-found p q s n e;
  remove_other = λ p q s ne. put_other p q none s ne;
  remove_self = λ p s. inr (put_self p none s);
  remove_ok = λ p s e. put_self p none s;
  open_other = λ p q cut s ne plain. put_other p q (opened cut (s p)) s ne;
  open_cut = λ p s plain e. rw (put_self p (opened true (s p)) s) (opened-cut (s p));
  open_found = λ p s n e kind done. put_self p (opened false (s p)) s ∙ ap (opened false) e;
  write_other = λ p q f end s ne plain. put_other p q (extended f end (s p)) s ne;
  write_self = λ p f end s n e kind. put_self p (extended f end (s p)) s ∙ ap (extended f end) e;
  truncate_other = λ p q k s ne plain. refl;
  chmod_other = λ p q mode s ne plain. refl;
  chmod_self = λ p mode s f size h. h;
  chtimes_other = λ p q time s ne plain. refl;
  chtimes_self = λ p time s f size h. h;
  posix_rename_other = λ p r q s ne nr. refl;
  posix_rename_self = λ p r s ne. inl (refl, refl);
  posix_rename_ok = λ p r s ne e. absurd (cc);
  rename_other = λ p r q s ne nr. move_other p r q (s p) (s r) s ne nr;
  rename_self = λ p r s ne. move_self p r (s p) (s r) s refl;
  rename_ok = λ p r s ne e. move-ok p r (s p) (s r) s e;
}
