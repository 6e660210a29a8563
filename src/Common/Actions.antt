-- ===== src/Common/Actions.antt =====
-- Code that works on a state and stops at its first error.
use mathlib.Core.Bool.{Bool, true, false}
use lab_remote_go.Common.Results.{Result, err, ok}

abbrev pub Action : Type 0 → Type 0 → Type 0 → Type 0
Action S E A = S → S × Result E A

abbrev pub Any : {S A : Type 0} → A → S → Type 0
Any a s = Unit {0}

module _ {S E : Type 0} where
  abbrev pub pure : {A : Type 0} → A → Action S E A
  pure a s = (s, ok a)

  abbrev pub fail : {A : Type 0} → E → Action S E A
  fail e s = (s, err e)

  abbrev pub next : {A B : Type 0} → S × Result E A → (A → Action S E B) → S × Result E B
  next (s, ok a) f = f a s
  next (s, err e) f = (s, err e)

  infixl 5 ◌>>=◌ ◌>>◌
  abbrev pub ◌>>=◌ : {A B : Type 0} → Action S E A → (A → Action S E B) → Action S E B
  ◌>>=◌ m f s = next (m s) f

  abbrev pub ◌>>◌ : {B : Type 0} → Action S E (Unit {0}) → Action S E B → Action S E B
  m >> k = m >>= λ _. k

  -- `if bad { return e }`
  abbrev pub fail_if : Bool → E → Action S E (Unit {0})
  fail_if true e = fail e
  fail_if false e = pure tt

  -- Whatever the action returns, `I` holds after it, and `Q` of its value if it succeeds.
  abbrev pub Triple : {A : Type 0} → (S → Type 0) → (A → S → Type 0) → S × Result E A → Type 0
  Triple I Q (s, ok a) = I s × Q a s
  Triple I Q (s, err e) = I s

  pub next-Triple :
      {A B : Type 0} (I K : S → Type 0) (P : A → S → Type 0) (Q : B → S → Type 0)
      (r : S × Result E A) (f : A → Action S E B)
      → Triple I P r
      → ((t : S) → I t → K t)
      → ((a : A) (t : S) → I t → P a t → Triple K Q (f a t))
      → Triple K Q (next r f)
  next-Triple I K P Q (t, ok a) f h weaker k = k a t h.0 h.1
  next-Triple I K P Q (t, err e) f h weaker k = weaker t h

  pub Triple-both :
      {A : Type 0} (I K : S → Type 0) (P : A → S → Type 0) (r : S × Result E A)
      → Triple I P r
      → Triple K P r
      → Triple (λ s. I s × K s) P r
  Triple-both I K P (t, ok a) h k = ((h.0, k.0), h.1)
  Triple-both I K P (t, err e) h k = (h, k)

  pub Triple-weaken :
      {A : Type 0} (I K : S → Type 0) (P Q : A → S → Type 0) (r : S × Result E A)
      → Triple I P r
      → ((s : S) → I s → K s)
      → ((a : A) (s : S) → I s → P a s → Q a s)
      → Triple K Q r
  Triple-weaken I K P Q (t, ok a) h i q = (i t h.0, q a t h.0 h.1)
  Triple-weaken I K P Q (t, err e) h i q = i t h

  pub fail_if-Triple :
      (I : S → Type 0) (b : Bool) (e : E) (s : S) → I s → Triple I (λ _ t. Unit {0}) (fail_if b e s)
  fail_if-Triple I true e s i = i
  fail_if-Triple I false e s i = (i, tt)
