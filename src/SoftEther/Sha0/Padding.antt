-- ===== src/SoftEther/Sha0/Padding.antt =====
-- `sum` pads as SHA does, and the digest is the compression of the padded message block by block.
use lab_remote_go.Common.{
  put_u64, ap₂, ℕ, zero, suc, ◌+◌, ◌-◌, ◌*◌, ◌/◌, ◌%◌, ◌^◌, ◌<◌, ◌≡◌, refl, ◌∙◌, ap, [], ◌∷◌, ◌++◌,
  some, Bytes, put_u32, length, length-append, length-replicate, replicate, arith,
}
use lab_remote_go.SoftEther.Sha0.{
  Sha0Digest, new_sha0, write_from, write, pad_zeros, words_bytes, sum, sha0,
}
use lab_remote_go.SoftEther.Sha0.Streaming.{count-write, write-write}
use lab_remote_go.SoftEther.Sha0.Blocks.{absorb, state-write_new}

write-nil : (digest : Sha0Digest) → digest.count < 2 ^ 64 → write [] digest ≡ digest
unfolding write write_from
write-nil digest h = ap (λ n. record digest { count = n }) (omega arith)

-- The loop ends after `k < 64` zero bytes, once the count is 56 modulo 64.
pad_zeros_lem :
    (k fuel : ℕ) (digest : Sha0Digest)
    → k < fuel
    → k < 64
    → digest.count < 2 ^ 64
    → (digest.count + k) % 64 ≡ 56
    → pad_zeros fuel digest ≡ some (write (replicate k 0) digest)
unfolding pad_zeros
pad_zeros_lem k zero digest f h c e = absurd (omega arith)
pad_zeros_lem zero (suc fuel) digest f h c e = ground (arith, write-nil digest c)
pad_zeros_lem (suc k) (suc fuel) digest f h c e = ground (
  arith,
  pad_zeros_lem k fuel (write (0 ∷ []) digest) (omega arith) (omega arith)
      (omega (arith, count-write (0 ∷ []) digest)) (omega (arith, count-write (0 ∷ []) digest)),
  write-write (0 ∷ []) (replicate k 0) digest,
)

-- how many zero bytes follow the 0x80
abbrev pub zero_count : ℕ → ℕ
zero_count n = (119 - n % 64) % 64

abbrev pub padding : ℕ → Bytes
padding n = 0x80 ∷ (replicate (zero_count n) 0 ++ put_u64 (n * 8 % 2 ^ 64))

-- the message with its SHA padding: 0x80, zeros, and the length in bits modulo 2^64
abbrev pub padded : Bytes → Bytes
padded content = content ++ padding (length content)

sum_lem :
    (digest : Sha0Digest)
    → digest.count < 2 ^ 64
    → sum digest ≡ some (words_bytes (write (padding digest.count) digest).state)
unfolding sum
sum_lem digest c =
    let first : Sha0Digest = write (0x80 ∷ []) digest in
    rw (
      sum,
      pad_zeros_lem (zero_count digest.count) 64 first (omega arith) (omega arith)
          (omega (arith, count-write (0x80 ∷ []) digest))
          (omega (arith, count-write (0x80 ∷ []) digest)),
      write-write,
      write-write,
    )

length-put_u64 : (v : ℕ) → length (put_u64 v) ≡ 8
unfolding put_u64 put_u32
length-put_u64 v = refl

length-padded : (content : Bytes) → length (padded content) % 64 ≡ 0
length-padded content = omega (
  arith,
  length-append content (padding (length content)),
  length-append (replicate (zero_count (length content)) 0) (put_u64 (length content * 8 % 2 ^ 64)),
  length-replicate {A = ℕ} (zero_count (length content)) 0,
  length-put_u64 (length content * 8 % 2 ^ 64),
)

padding-mod : (n : ℕ) → padding (n % 2 ^ 64) ≡ padding n
padding-mod n = ap₂ (λ z b. 0x80 ∷ (replicate z 0 ++ put_u64 b)) (omega arith) (omega arith)

count_content : (content : Bytes) → (write content new_sha0).count ≡ length content % 2 ^ 64
unfolding new_sha0
count_content content = count-write content new_sha0 ∙ ap (λ n. n % 2 ^ 64) (omega arith)

-- `sha0` always ends, and returns the state that compressing the blocks of the padded message in
-- their order leaves, starting from the initial state: for a message of any length, with its bit
-- length taken modulo 2^64.
pub sha0_lem :
    (content : Bytes)
    → sha0 content
      ≡ some (words_bytes (absorb (length (padded content) / 64) (padded content) new_sha0.state))
unfolding sha0
sha0_lem content =
    let digest : Sha0Digest = write content new_sha0 in
    sum_lem digest (omega (arith, count_content content))
    ∙ ap (λ b. some (words_bytes (write b digest).state))
        (ap padding (count_content content) ∙ padding-mod (length content))
    ∙ ap (λ d. some (words_bytes d.state)) (write-write content (padding (length content)) new_sha0)
    ∙ ap (λ w. some (words_bytes w)) (state-write_new (padded content) (length-padded content))
