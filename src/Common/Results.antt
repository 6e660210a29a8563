-- ===== src/Common/Results.antt =====
-- Fallible code: a value or an error, with the bind that `do` blocks use.
use mathlib.Core.Path.{◌≡◌, refl, subst}
use mathlib.Core.Logic.{◌⊎◌, inl, inr}
use mathlib.Core.Bool.{Bool, true, false}
use native.Mathlib.Omega.{arith}
use lab_remote_go.Common.Tests.{if◌then◌else◌}

pub data Result {ℓ κ} (E : Type ℓ) (A : Type κ) : Type (ℓ ⊔ κ) where
  err : E → Result E A
  ok : A → Result E A

module _ {ℓ κ μ} {E : Type ℓ} {A : Type κ} {B : Type μ} where
  infixl 5 ◌>>=◌
  abbrev pub ◌>>=◌ : Result E A → (A → Result E B) → Result E B
  err why >>= next = err why
  ok value >>= next = next value

infixl 5 ◌>>◌
abbrev pub ◌>>◌ {ℓ μ} : {E : Type ℓ} {B : Type μ} → Result E (Unit {0}) → Result E B → Result E B
check >> next = check >>= λ _. next

-- go on if the test fails, as in Go's `if bad { return err }`
abbrev pub fail_if {ℓ} : {E : Type ℓ} → Bool → E → Result E (Unit {0})
fail_if true e = err e
fail_if false e = ok tt

-- The value of a success satisfies `P`.
abbrev pub Ensures {ℓ κ μ} : {E : Type ℓ} {A : Type κ} → (A → Type μ) → Result E A → Type μ
Ensures P (ok a) = P a
Ensures P (err e) = Unit

pub >>=-Ensures {ℓ κ μ ν ξ} :
    {E : Type ℓ} {A : Type κ} {B : Type μ} (P : A → Type ν) (Q : B → Type ξ) (m : Result E A)
    (f : A → Result E B)
    → Ensures P m
    → ((a : A) → P a → Ensures Q (f a))
    → Ensures Q (m >>= f)
>>=-Ensures P Q (ok a) f p k = k a p
>>=-Ensures P Q (err e) f p k = tt

pub fail_if-Ensures {ℓ κ ξ} :
    {E : Type ℓ} {B : Type κ} (Q : B → Type ξ) (b : Bool) (e : E) (m : Result E B)
    → (b ≡ false → Ensures Q m)
    → Ensures Q (fail_if b e >> m)
fail_if-Ensures Q true e m k = tt
fail_if-Ensures Q false e m k = k refl

pub Ensures-elim {ℓ κ μ} :
    {E : Type ℓ} {A : Type κ} (P : A → Type μ) (m : Result E A) {a : A}
    → Ensures P m
    → m ≡ ok a
    → P a
Ensures-elim P m {a} p e = subst (λ r. Ensures P r) e p

pub >>=-Ensures_any {ℓ κ μ ξ} :
    {E : Type ℓ} {A : Type κ} {B : Type μ} (Q : B → Type ξ) (m : Result E A) (f : A → Result E B)
    → ((a : A) → Ensures Q (f a))
    → Ensures Q (m >>= f)
>>=-Ensures_any Q (ok a) f k = k a
>>=-Ensures_any Q (err e) f k = tt

pub if-Ensures {ℓ κ ξ} :
    {E : Type ℓ} {B : Type κ} (Q : B → Type ξ) (b : Bool) (m n : Result E B)
    → Ensures Q m
    → Ensures Q n
    → Ensures Q (if b then m else n)
if-Ensures Q true m n p q = p
if-Ensures Q false m n p q = q

pub Ensures-mono {ℓ κ μ ν} :
    {E : Type ℓ} {A : Type κ} (P : A → Type μ) (Q : A → Type ν) (m : Result E A)
    → Ensures P m
    → ((a : A) → P a → Q a)
    → Ensures Q m
Ensures-mono P Q (ok a) p k = k a p
Ensures-mono P Q (err e) p k = tt

-- What a success says of the parts.
pub fail_if-ok {ℓ κ} :
    {E : Type ℓ} {B : Type κ} (b : Bool) (e : E) (m : Result E B) {a : B}
    → (fail_if b e >> m) ≡ ok a
    → (b ≡ false) × (m ≡ ok a)
fail_if-ok true e m h = absurd (cc)
fail_if-ok false e m h = (refl, h)

pub >>-ok {ℓ κ} :
    {E : Type ℓ} {B : Type κ} (m : Result E (Unit {0})) (n : Result E B) {a : B}
    → (m >> n) ≡ ok a
    → (m ≡ ok tt) × (n ≡ ok a)
>>-ok (err e) n h = absurd (cc)
>>-ok (ok u) n h = (refl, h)

pub fail_if-passes {ℓ} : {E : Type ℓ} (b : Bool) (e : E) → fail_if b e ≡ ok tt → b ≡ false
fail_if-passes true e h = absurd (cc)
fail_if-passes false e h = refl

pub Result-cases {ℓ} :
    {E : Type ℓ} (r : Result E (Unit {0})) → (r ≡ ok tt) ⊎ ((e : E) × (r ≡ err e))
Result-cases (ok u) = inl refl
Result-cases (err e) = inr (e, refl)

pub >>=-ok {ℓ κ μ} :
    {E : Type ℓ} {A : Type κ} {B : Type μ} (m : Result E A) (f : A → Result E B) {b : B}
    → (m >>= f) ≡ ok b
    → (a : A) × (m ≡ ok a) × (f a ≡ ok b)
>>=-ok (err e) f h = absurd (cc)
>>=-ok (ok a) f h = (a, refl, h)

pub ok-inj {ℓ κ} : {E : Type ℓ} {A : Type κ} {a b : A} → ◌≡◌ {A = Result E A} (ok a) (ok b) → a ≡ b
ok-inj h = ground arith
