-- ===== src/Mcp/Auth/Decimal.antt =====
-- The decimal text of a port.
use lab_remote_go.Common.{
  ℕ, zero, suc, ◌+◌, ◌/◌, ◌%◌, ◌^◌, ◌<◌, ◌≡◌, ◌∙◌, ap, [], ◌∷◌, ◌==◌, arith, Bool-cases, inl, inr,
}
use native.Mathlib.Nat.{pow-suc}
use lab_remote_go.Common.Texts.{Text}
use lab_remote_go.Mcp.Auth.{itoa_digits, itoa}
use lab_remote_go.Model.Addresses.{decimal}

itoa_digits-decimal :
    (fuel value : ℕ) (buffer : Text)
    → value < 10 ^ fuel
    → decimal 0 (itoa_digits fuel value buffer) ≡ decimal value buffer
unfolding itoa_digits
itoa_digits-decimal zero value buffer h = ap (λ n. decimal n buffer) (omega arith)
itoa_digits-decimal (suc fuel) value buffer h = elim (Bool-cases (value == 0)) [
  | inl nothing ↦ ground arith
  | inr some_digit ↦ rw some_digit (
      itoa_digits-decimal fuel (value / 10) ((48 + value % 10) ∷ buffer)
        (omega (arith, pow-suc 10 fuel))
      ∙ ap (λ n. decimal n buffer) (omega arith))
]

-- `itoa` of a number below 10^20, so of every non-negative `int`, is its decimal text: read back in
-- base ten, it gives the number; the 20 bytes of the buffer are enough.
pub decimal-itoa : (value : ℕ) → value < 10 ^ 20 → decimal 0 (itoa value) ≡ value
unfolding itoa
decimal-itoa value h = elim (Bool-cases (value == 0)) [
  | inl nothing ↦ ground arith
  | inr some_digit ↦ rw some_digit (itoa_digits-decimal 20 value [] h)
]
