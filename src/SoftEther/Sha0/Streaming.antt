-- ===== src/SoftEther/Sha0/Streaming.antt =====
-- Writing in pieces is writing at once.
use lab_remote_go.Common.{
  ℕ, ◌+◌, ◌%◌, ◌^◌, ◌<◌, ◌≡◌, refl, ◌∙◌, ap, [], ◌∷◌, ◌++◌, Bytes, length, length-append, arith,
}
use lab_remote_go.SoftEther.Sha0.{Sha0Digest, transform, store, write_from, write}

abbrev with_count : ℕ → Sha0Digest → Sha0Digest
with_count n digest = record digest { count = n }

pub store-index :
    (index value : ℕ) (digest : Sha0Digest)
    → index < 64
    → (store index value digest).0 ≡ (index + 1) % 64
unfolding store
store-index index value digest h = ground arith

store-with_count :
    (n index value : ℕ) (digest : Sha0Digest)
    → store index value (with_count n digest)
      ≡ ((store index value digest).0, with_count n (store index value digest).1)
unfolding store transform
store-with_count n index value digest = ground arith

-- The loop neither reads nor changes `count`.
pub write_from-with_count :
    (n index : ℕ) (bs : Bytes) (digest : Sha0Digest)
    → write_from index bs (with_count n digest) ≡ with_count n (write_from index bs digest)
unfolding write_from
write_from-with_count n index [] digest = refl
write_from-with_count n index (x ∷ bs) digest =
    rw (store-with_count n index x digest)
      (write_from-with_count n (store index x digest).0 bs (store index x digest).1)

pub write_from-append :
    (index : ℕ) (xs ys : Bytes) (digest : Sha0Digest)
    → index < 64
    → write_from index (xs ++ ys) digest
      ≡ write_from ((index + length xs) % 64) ys (write_from index xs digest)
unfolding write_from
write_from-append index [] ys digest h = ap (λ i. write_from i ys digest) (omega arith)
write_from-append index (x ∷ xs) ys digest h =
    let (index', digest') = store index x digest in
    write_from-append index' xs ys digest' (omega (arith, store-index index x digest h))
    ∙ ap (λ i. write_from i ys (write_from index' xs digest'))
        (omega (arith, store-index index x digest h))

-- `write` as a run of its loop with the count set at the end
pub write_lem :
    (bs : Bytes) (digest : Sha0Digest)
    → write bs digest
      ≡ with_count ((digest.count + length bs) % 2 ^ 64) (write_from (digest.count % 64) bs digest)
unfolding write
write_lem bs digest =
    write_from-with_count ((digest.count + length bs) % 2 ^ 64) (digest.count % 64) bs digest

pub count-write :
    (bs : Bytes) (digest : Sha0Digest)
    → (write bs digest).count ≡ (digest.count + length bs) % 2 ^ 64
count-write bs digest = ap (λ (d : Sha0Digest). d.count) (write_lem bs digest)

-- Two calls of `write` leave what one call with both pieces leaves, wherever the cut is, also when
-- the byte count wraps.
pub write-write :
    (xs ys : Bytes) (digest : Sha0Digest) → write ys (write xs digest) ≡ write (xs ++ ys) digest
write-write xs ys digest =
    let c : ℕ = digest.count in
    let n : ℕ = (c + length xs) % 2 ^ 64 in
    let half : Sha0Digest = write_from (c % 64) xs digest in
    let index : ((c + length xs) % 2 ^ 64) % 64 ≡ (c % 64 + length xs) % 64 = omega arith in
    let total : ((c + length xs) % 2 ^ 64 + length ys) % 2 ^ 64 ≡ (c + length (xs ++ ys)) % 2 ^ 64 =
      omega (arith, length-append xs ys) in
    rw (write_lem xs digest, write_lem ys (with_count n half), write_lem (xs ++ ys) digest)
      (rw (
        write_from-with_count n (n % 64) ys half,
        write_from-append (c % 64) xs ys digest (omega arith),
        ← index,
        ← total,
      ))
