-- ===== src/SoftEther/Sha0.antt =====
-- internal/softether/sha0.go: the SHA-0 digest of the SoftEther password handshake.
-- uint32 arithmetic is taken modulo 2^32; `& 63` is `% 64`. Arrays are lists.
pub mod Streaming
pub mod Blocks
pub mod Padding
mod Tests
use Prim.Native.Nat.{bit_and, bit_or, bit_xor}
use mathlib.Core.List.{reverse}
use lab_remote_go.Common.{
  ℕ, zero, suc, ◌+◌, ◌-◌, ◌*◌, ◌/◌, ◌%◌, ◌^◌, List, [], ◌∷◌, ◌++◌, Option, none, some, Bytes,
  put_u32, put_u64, length, replicate, get_or, set, ltb, ◌==◌, if◌then◌else◌,
}

-- `state [5]uint32`, and the working variables of a round
pub record Words : Type 0 where
  pub a : ℕ
  pub b : ℕ
  pub c : ℕ
  pub d : ℕ
  pub e : ℕ

-- `count` is a uint64.
pub record Sha0Digest : Type 0 where
  pub count : ℕ
  pub block : Bytes
  pub state : Words

unfoldable pub new_sha0 : Sha0Digest
new_sha0 = record {
  count = 0;
  block = replicate 64 0;
  state = record { a = 0x67452301; b = 0xefcdab89; c = 0x98badcfe; d = 0x10325476; e = 0xc3d2e1f0 };
}

abbrev pub add_u32 : ℕ → ℕ → ℕ
add_u32 x y = (x + y) % 2 ^ 32

unfoldable pub rotate_left : ℕ → ℕ → ℕ
rotate_left value bits = bit_or (value * 2 ^ bits % 2 ^ 32) (value / 2 ^ (32 - bits))

-- `words[0:16]`, the newest first
unfoldable pub block_words : ℕ → Bytes → List ℕ → List ℕ
block_words zero block newest = newest
block_words (suc n) (p ∷ q ∷ r ∷ s ∷ rest) newest =
    block_words n rest ((((p * 256 + q) * 256 + r) * 256 + s) ∷ newest)
block_words (suc n) _ newest = newest

-- `words[16:80]`
unfoldable pub extend_words : ℕ → List ℕ → List ℕ
extend_words zero newest = newest
extend_words (suc n) newest =
    let w : ℕ =
      bit_xor (bit_xor (bit_xor (get_or newest 2 0) (get_or newest 7 0)) (get_or newest 13 0))
        (get_or newest 15 0) in
    extend_words n (w ∷ newest)

unfoldable pub schedule : Bytes → List ℕ
schedule block = reverse (extend_words 64 (block_words 16 block []))

-- what a round adds to `value` in the `switch`
unfoldable pub mix : ℕ → Words → ℕ
mix index w =
    if ltb index 20
    then add_u32 (bit_xor w.d (bit_and w.b (bit_xor w.c w.d))) 0x5a827999
    else if ltb index 40
    then add_u32 (bit_xor (bit_xor w.b w.c) w.d) 0x6ed9eba1
    else if ltb index 60
    then add_u32 (bit_or (bit_and w.b w.c) (bit_and w.d (bit_or w.b w.c))) 0x8f1bbcdc
    else add_u32 (bit_xor (bit_xor w.b w.c) w.d) 0xca62c1d6

unfoldable pub rounds : ℕ → List ℕ → Words → Words
rounds index [] w = w
rounds index (word ∷ words) w =
    let value : ℕ = add_u32 (add_u32 (add_u32 (rotate_left w.a 5) w.e) word) (mix index w) in
    rounds (index + 1) words
      (record { a = value; b = w.a; c = rotate_left w.b 30; d = w.c; e = w.d })

unfoldable pub compress : Bytes → Words → Words
compress block s =
    let w : Words = rounds 0 (schedule block) s in
    record {
      a = add_u32 s.a w.a;
      b = add_u32 s.b w.b;
      c = add_u32 s.c w.c;
      d = add_u32 s.d w.d;
      e = add_u32 s.e w.e;
    }

unfoldable pub transform : Sha0Digest → Sha0Digest
transform digest = record digest { state = compress digest.block digest.state }

-- A round of the loop of `write`: the next `index`, and the digest.
unfoldable pub store : ℕ → ℕ → Sha0Digest → ℕ × Sha0Digest
store index value digest =
    let stored : Sha0Digest = record digest { block = set digest.block index value } in
    if (index + 1) == 64 then (0, transform stored) else (index + 1, stored)

-- The loop of `write` over the bytes left, with its `index`.
unfoldable pub write_from : ℕ → Bytes → Sha0Digest → Sha0Digest
write_from index [] digest = digest
write_from index (value ∷ rest) digest =
    let (index', digest') = store index value digest in write_from index' rest digest'

unfoldable pub write : Bytes → Sha0Digest → Sha0Digest
write content digest =
    write_from (digest.count % 64) content
      (record digest { count = (digest.count + length content) % 2 ^ 64 })

-- `for digest.count&63 != 56 { digest.write([]byte{0}) }`; `none` means that the fuel ran out
unfoldable pub pad_zeros : ℕ → Sha0Digest → Option Sha0Digest
pad_zeros zero digest = none
pad_zeros (suc fuel) digest =
    let rest = pad_zeros fuel (write (0 ∷ []) digest) in
    if digest.count % 64 == 56 then some digest else rest

abbrev pub words_bytes : Words → Bytes
words_bytes w = put_u32 w.a ++ (put_u32 w.b ++ (put_u32 w.c ++ (put_u32 w.d ++ put_u32 w.e)))

-- 64 rounds of padding reach every residue of `count`.
unfoldable pub sum : Sha0Digest → Option Bytes
sum digest =
    let bit_count : ℕ = digest.count * 8 % 2 ^ 64 in
    elim (pad_zeros 64 (write (0x80 ∷ []) digest)) [
      | none ↦ none
      | some padded ↦ some (words_bytes (write (put_u64 bit_count) padded).state)
    ]

unfoldable pub sha0 : Bytes → Option Bytes
sha0 content = sum (write content new_sha0)
