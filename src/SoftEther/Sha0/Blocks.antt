-- ===== src/SoftEther/Sha0/Blocks.antt =====
-- The loop of `write` over whole blocks compresses them one by one.
use lab_remote_go.Common.{
  ◌≤◌, ℕ, zero, suc, ◌+◌, ◌*◌, ◌/◌, ◌%◌, ◌^◌, ◌≡◌, ◌≢◌, refl, sym, ◌∙◌, ap, [], ◌∷◌, ◌++◌,
  append_assoc, Bytes, length, length-append, take, drop, set, take-append-drop, length-take,
  length-drop, arith,
}
use lab_remote_go.SoftEther.Sha0.{
  Words, Sha0Digest, new_sha0, compress, transform, store, write_from, write,
}

-- the reference: the blocks of 64 bytes compressed in their order
unfoldable pub absorb : ℕ → Bytes → Words → Words
absorb zero content s = s
absorb (suc n) content s = absorb n (drop 64 content) (compress (take 64 content) s)

set-append : (pre suf : Bytes) (s x : ℕ) → set (pre ++ (s ∷ suf)) (length pre) x ≡ pre ++ (x ∷ suf)
set-append [] suf s x = refl
set-append (p ∷ pre) suf s x = ap (λ t. p ∷ t) (set-append pre suf s x)

store_more :
    (index value : ℕ) (digest : Sha0Digest)
    → index + 1 ≢ 64
    → store index value digest ≡ (index + 1, record digest { block = set digest.block index value })
unfolding store
store_more index value digest h = ground arith

store_last :
    (index value : ℕ) (digest : Sha0Digest)
    → index + 1 ≡ 64
    → store index value digest ≡ (
      0,
      record digest {
        block = set digest.block index value;
        state = compress (set digest.block index value) digest.state;
      },
    )
unfolding store transform
store_last index value digest h = ground arith

stored :
    (x : ℕ) (pre suf : Bytes) (s : ℕ) (digest : Sha0Digest)
    → digest.block ≡ pre ++ (s ∷ suf)
    → set digest.block (length pre) x ≡ pre ++ (x ∷ suf)
stored x pre suf s digest e = rw e (set-append pre suf s x)

store_more' :
    (x : ℕ) (pre rest : Bytes) (digest : Sha0Digest) {n : ℕ}
    → n ≡ length pre + 1
    → n ≢ 64
    → write_from (length pre) (x ∷ rest) digest
      ≡ write_from n rest (record digest { block = set digest.block (length pre) x })
unfolding write_from
store_more' x pre rest digest e h = rw (e, store_more (length pre) x digest (λ k. h (e ∙ k)))

-- the digest after a block has been filled
abbrev after : Bytes → Sha0Digest → Sha0Digest
after block digest = record digest { block = block; state = compress block digest.state }

-- From index `length pre` on, the bytes that complete the block compress it.
fill_block :
    (x : ℕ) (xs pre suf rest : Bytes) (digest : Sha0Digest)
    → length pre + suc (length xs) ≡ 64
    → length suf ≡ suc (length xs)
    → digest.block ≡ pre ++ suf
    → write_from (length pre) (x ∷ (xs ++ rest)) digest
      ≡ write_from 0 rest (after (pre ++ (x ∷ xs)) digest)
unfolding write_from
fill_block x xs pre [] rest digest h l e = absurd (omega arith)
fill_block x [] pre (s ∷ t ∷ suf) rest digest h l e = absurd (omega arith)
fill_block x [] pre (s ∷ []) rest digest h l e =
    rw (write_from, store_last (length pre) x digest (omega arith))
      (ap (λ b. write_from 0 rest (after b digest)) (stored x pre [] s digest e))
fill_block x (y ∷ ys) pre (s ∷ suf) rest digest h l e =
    let stored' : Sha0Digest = record digest { block = set digest.block (length pre) x } in
    let pre' : Bytes = pre ++ (x ∷ []) in
    let n : length pre' ≡ length pre + 1 = omega (arith, length-append pre (x ∷ [])) in
    let block : stored'.block ≡ pre' ++ suf =
      stored x pre suf s digest e ∙ sym (append_assoc pre (x ∷ []) suf) in
    store_more' x pre (y ∷ (ys ++ rest)) digest n (omega (arith, n))
    ∙ fill_block y ys pre' suf rest stored' (omega (arith, n)) (omega arith) block
    ∙ ap (λ b. write_from 0 rest (after b digest)) (append_assoc pre (x ∷ []) (y ∷ ys))

block_step :
    (content : Bytes) (digest : Sha0Digest)
    → 64 ≤ length content
    → length digest.block ≡ 64
    → write_from 0 content digest ≡ write_from 0 (drop 64 content) (after (take 64 content) digest)
block_step [] digest h l = absurd (omega arith)
block_step (x ∷ xs) digest h l =
    ap (λ t. write_from 0 (x ∷ t) digest) (sym (take-append-drop 63 xs))
    ∙ fill_block x (take 63 xs) [] digest.block (drop 63 xs) digest
        (omega (arith, length-take 63 xs)) (omega (arith, length-take 63 xs)) refl

-- The loop of `write`, from index 0 over whole blocks, absorbs them.
write_from-absorb :
    (n : ℕ) (content : Bytes) (digest : Sha0Digest)
    → length content ≡ n * 64
    → length digest.block ≡ 64
    → (write_from 0 content digest).state ≡ absorb n content digest.state
unfolding absorb write_from
write_from-absorb zero [] digest h l = refl
write_from-absorb zero (x ∷ content) digest h l = absurd (omega arith)
write_from-absorb (suc n) content digest h l = rw (block_step content digest (omega arith) l) (
    write_from-absorb n (drop 64 content) (after (take 64 content) digest)
      (omega (arith, length-drop 64 content)) (omega (arith, length-take 64 content)))

pub state-write_new :
    (content : Bytes)
    → length content % 64 ≡ 0
    → (write content new_sha0).state ≡ absorb (length content / 64) content new_sha0.state
unfolding write new_sha0
state-write_new content h =
    write_from-absorb (length content / 64) content
      (record new_sha0 { count = (0 + length content) % 2 ^ 64 }) (omega arith) refl
