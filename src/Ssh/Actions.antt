-- ===== src/Ssh/Actions.antt =====
-- Code that calls the SFTP client: an error of a call becomes one of the caller's, or is looked at.
use lab_remote_go.Common.{◌≡◌, refl}
use lab_remote_go.Common.Results.{Result, err, ok}
use lab_remote_go.Ssh.Sftp.{SftpError, Call}
pub use lab_remote_go.Common.Actions.{
  Action, Any, pure, fail, next, ◌>>=◌, ◌>>◌, fail_if, Triple, next-Triple, Triple-both,
  Triple-weaken, fail_if-Triple,
}

module _ {S E : Type 0} where
  abbrev pub or_fail : {A : Type 0} → E → S × Result SftpError A → S × Result E A
  or_fail e (s, ok a) = (s, ok a)
  or_fail e (s, err why) = (s, err e)

  -- a call whose error ends the function with `e`
  abbrev pub check : {A : Type 0} → Call S A → E → Action S E A
  check call e s = or_fail e (call s)

  -- a call whose answer is looked at, or thrown away
  abbrev pub attempt : {A : Type 0} → Call S A → Action S E (Result SftpError A)
  attempt call s = let (t, answer) = call s in (t, ok answer)

  pub or_fail-Triple :
      {A : Type 0} (I : S → Type 0) (Q : A → S → Type 0) (r : S × Result SftpError A) (e : E)
      → I r.0
      → ((a : A) → r.1 ≡ ok a → Q a r.0)
      → Triple I Q (or_fail e r)
  or_fail-Triple I Q (t, ok a) e i q = (i, q a refl)
  or_fail-Triple I Q (t, err why) e i q = i
