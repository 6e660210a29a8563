-- ===== src/SoftEther/Dhcp/Checksum.antt =====
-- internal/softether/link.go, `checksum`: the sum of a header that carries it.
use lab_remote_go.Common.{
  ℕ, ◌+◌, ◌-◌, ◌*◌, ◌%◌, ◌^◌, ◌<◌, ◌≡◌, ap, ◌∙◌, [], ◌∷◌, ◌++◌, ◌⊎◌, length, length-append, Bytes,
  IsBytes, arith, ◌≤◌, IsBytes-append,
}
use lab_remote_go.SoftEther.Dhcp.{put_u16, sum_words, fold_carry, checksum, with_checksum}

-- the plain sum of the words
abbrev pub word_sum : Bytes → ℕ
word_sum [] = 0
word_sum (a ∷ []) = a * 256
word_sum (a ∷ b ∷ rest) = a * 256 + b + word_sum rest

sum_words_lem :
    (sum : ℕ) (xs : Bytes)
    → IsBytes xs
    → sum + 65536 * length xs < 2 ^ 32
    → sum_words sum xs ≡ sum + word_sum xs
unfolding sum_words
sum_words_lem sum [] p h = omega arith
sum_words_lem sum (a ∷ []) p h = omega (arith, p.0)
sum_words_lem sum (a ∷ b ∷ rest) p h =
    let small : sum + (a * 256 + b) < 2 ^ 32 = omega (arith, p.0, p.1.0) in
    let e : (sum + (a * 256 + b)) % 2 ^ 32 ≡ sum + (a * 256 + b) = omega (arith, small) in
    rw e (sum_words_lem (sum + (a * 256 + b)) rest p.1.1 (omega (arith, p.0, p.1.0)) ∙ omega arith)

word_sum-append :
    (xs ys : Bytes) → length xs % 2 ≡ 0 → word_sum (xs ++ ys) ≡ word_sum xs + word_sum ys
word_sum-append [] ys h = omega arith
word_sum-append (a ∷ []) ys h = absurd (omega arith)
word_sum-append (a ∷ b ∷ rest) ys h = omega (arith, word_sum-append rest ys (omega arith))

-- Two turns bring the carry of any `uint32` home.
fold_carry_lem :
    (n : ℕ)
    → n < 2 ^ 32
    → (fold_carry 2 n ≤ 65535) × (fold_carry 2 n % 65535 ≡ n % 65535) × (n ≡ 0 ⊎ 0 < fold_carry 2 n)
unfolding fold_carry
fold_carry_lem n h = ground arith

pub fold_carry_complement :
    (n : ℕ) → n < 2 ^ 31 → fold_carry 2 (n + (65535 - fold_carry 2 n)) ≡ 65535
fold_carry_complement n h =
    let (small, same, zero_or) = fold_carry_lem n (omega arith) in
    let (small', same', zero_or') = fold_carry_lem (n + (65535 - fold_carry 2 n)) (omega arith) in
    ground arith

word_sum-with :
    (before after : Bytes) (c : ℕ)
    → length before % 2 ≡ 0
    → c ≤ 65535
    → word_sum (before ++ (put_u16 c ++ after)) ≡ word_sum before + (c + word_sum after)
word_sum-with before after c even h = word_sum-append before (put_u16 c ++ after) even ∙ omega arith

word_sum_le : (xs : Bytes) → IsBytes xs → word_sum xs ≤ 65536 * length xs
word_sum_le [] p = omega arith
word_sum_le (a ∷ []) p = omega (arith, p.0)
word_sum_le (a ∷ b ∷ rest) p = omega (arith, p.0, p.1.0, word_sum_le rest p.1.1)

module _ (before after : Bytes) (p : IsBytes before) (q : IsBytes after)
    (even : length before % 2 ≡ 0) (small : length before + length after < 2 ^ 15) where
  checksum-put :
      (c : ℕ)
      → c ≤ 65535
      → checksum (before ++ (put_u16 c ++ after))
        ≡ 65535 - fold_carry 2 (word_sum before + (c + word_sum after))
  unfolding checksum
  checksum-put c h =
      rw
        (
          sum_words_lem 0 (before ++ (put_u16 c ++ after))
              (IsBytes-append before (put_u16 c ++ after) p
                (IsBytes-append (put_u16 c) after (omega arith, (omega arith, tt)) q))
              (omega (arith, length-append before (put_u16 c ++ after))),
          word_sum-with before after c even h,
        )
        (ap (λ k. 65535 - fold_carry 2 k) (omega arith))

  -- The 16-bit words of a header that carries its checksum add up to none: `checksum` of it is 0.
  pub checksum-with_checksum : checksum (with_checksum before after) ≡ 0
  checksum-with_checksum =
      let n : ℕ = word_sum before + (0 + word_sum after) in
      let bound : n < 2 ^ 31 = omega (arith, word_sum_le before p, word_sum_le after q) in
      let c : ℕ = 65535 - fold_carry 2 n in
      rw (checksum-put 0 (omega arith), checksum-put c (omega arith))
        (ap (λ k. 65535 - fold_carry 2 k) (omega arith)
          ∙ ap (λ k. 65535 - k) (fold_carry_complement n (omega arith)))
