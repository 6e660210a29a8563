-- ===== src/SoftEther/Session/Blocks.antt =====
-- The blocks of a stream, whole and cut off, as the other end reads them.
use lab_remote_go.Common.{
  ℕ, zero, suc, ◌+◌, ◌^◌, ◌≤◌, ◌<◌, le→ltb, ◌≡◌, refl, ap, sym, ◌∙◌, true, false, List, [], ◌∷◌,
  ◌++◌, none, some, arith, length, take, Bytes, put_u32, get_u32, get_u32-put_u32, read_full,
  read_full-append, append_assoc, length-append, length-take, lt→ltb, ltb,
}
use lab_remote_go.Common.Results.{err, ok}
use lab_remote_go.SoftEther.Session.{
  read_failed, bad_length, Turn, after_u32, after_full, read_frames, read_keep_alive, read_block,
  read_loop, write_frame_batch, write_keep_alive, keep_alive_size, random_size, rand_read,
  keep_alive_magic, max_keep_alive_size,
}

-- The blocks that the stream is made of.
pub data Block : Type 0 where
  frame_block : (frame : Bytes) → bad_length (length frame) ≡ false → Block
  alive_block : ℕ → (ℕ → ℕ) → Block

abbrev pub encode : List Block → Bytes
encode [] = []
encode (frame_block frame good ∷ blocks) = write_frame_batch frame ++ encode blocks
encode (alive_block v noise ∷ blocks) = write_keep_alive v noise ++ encode blocks

abbrev pub frames_of : List Block → List Bytes
frames_of [] = []
frames_of (frame_block frame good ∷ blocks) = frame ∷ frames_of blocks
frames_of (alive_block v noise ∷ blocks) = frames_of blocks

read_block-frame :
    (frame rest : Bytes)
    → bad_length (length frame) ≡ false
    → read_block (write_frame_batch frame ++ rest) ≡ (frame ∷ [], ok rest)
unfolding read_block write_frame_batch read_frames
read_block-frame frame rest good =
    rw
      (
        append_assoc,
        get_u32-put_u32 1 ((put_u32 (length frame) ++ frame) ++ rest) (omega arith),
        append_assoc,
        get_u32-put_u32 (length frame) (frame ++ rest) (ground arith),
        good,
        read_full-append frame rest,
      )
      refl

pub length-rand_read : (n : ℕ) (noise : ℕ → ℕ) → length (rand_read n noise) ≡ n
length-rand_read zero noise = refl
length-rand_read (suc n) noise = ap suc (length-rand_read n noise)

keep_alive_size-bound : (v : ℕ) → keep_alive_size v < max_keep_alive_size
unfolding keep_alive_size random_size
keep_alive_size-bound v = ground arith

read_full-rand_read :
    (n : ℕ) (noise : ℕ → ℕ) (rest : Bytes)
    → read_full n (rand_read n noise ++ rest) ≡ some (rand_read n noise, rest)
read_full-rand_read n noise rest =
    ap (λ k. read_full k (rand_read n noise ++ rest)) (sym (length-rand_read n noise))
    ∙ read_full-append (rand_read n noise) rest

read_block-alive :
    (v : ℕ) (noise : ℕ → ℕ) (rest : Bytes)
    → read_block (write_keep_alive v noise ++ rest) ≡ ([], ok rest)
unfolding read_block write_keep_alive read_keep_alive
read_block-alive v noise rest =
    let size = keep_alive_size v in
    rw
      (
        append_assoc,
        get_u32-put_u32 keep_alive_magic ((put_u32 size ++ rand_read size noise) ++ rest)
            (omega arith),
        append_assoc,
        get_u32-put_u32 size (rand_read size noise ++ rest)
            (omega (arith, keep_alive_size-bound v)),
        le→ltb max_keep_alive_size size (omega (arith, keep_alive_size-bound v)),
        read_full-rand_read size noise rest,
      )
      refl

pub read_block-nil : read_block [] ≡ ([], err read_failed)
unfolding read_block get_u32
read_block-nil = refl

-- The blocks are read back one by one, up to a rest that holds no whole block.
pub read_loop-encode :
    (tail : Bytes) (blocks : List Block) (fuel : ℕ)
    → read_block tail ≡ ([], err read_failed)
    → length blocks < fuel
    → read_loop fuel (encode blocks ++ tail) ≡ (frames_of blocks, some read_failed)
unfolding read_loop
read_loop-encode tail blocks zero e h = absurd (omega arith)
read_loop-encode tail [] (suc fuel) e h = rw e refl
read_loop-encode tail (frame_block frame good ∷ blocks) (suc fuel) e h =
    rw
      (
        append_assoc,
        read_block-frame frame (encode blocks ++ tail) good,
        read_loop-encode tail blocks fuel e (omega arith),
      )
      refl
read_loop-encode tail (alive_block v noise ∷ blocks) (suc fuel) e h =
    rw
      (
        append_assoc,
        read_block-alive v noise (encode blocks ++ tail),
        read_loop-encode tail blocks fuel e (omega arith),
      )
      refl

-- Every block takes at least a byte, so fuel beyond the length of the stream is enough.
pub length-encode : (blocks : List Block) → length blocks ≤ length (encode blocks)
unfolding write_frame_batch write_keep_alive put_u32
length-encode [] = omega arith
length-encode (frame_block frame good ∷ blocks) =
    omega (arith, length-append (write_frame_batch frame) (encode blocks), length-encode blocks)
length-encode (alive_block v noise ∷ blocks) =
    omega (arith, length-append (write_keep_alive v noise) (encode blocks), length-encode blocks)

pub encode-append : (xs ys : List Block) → encode (xs ++ ys) ≡ encode xs ++ encode ys
encode-append [] ys = refl
encode-append (frame_block frame good ∷ xs) ys = rw (encode-append xs ys, append_assoc) refl
encode-append (alive_block v noise ∷ xs) ys = rw (encode-append xs ys, append_assoc) refl

pub frames_of-append : (xs ys : List Block) → frames_of (xs ++ ys) ≡ frames_of xs ++ frames_of ys
frames_of-append [] ys = refl
frames_of-append (frame_block frame good ∷ xs) ys = ap (λ t. frame ∷ t) (frames_of-append xs ys)
frames_of-append (alive_block v noise ∷ xs) ys = frames_of-append xs ys

get_u32-short : (v n : ℕ) (rest : Bytes) → n < 4 → get_u32 (take n (put_u32 v ++ rest)) ≡ none
unfolding get_u32 put_u32
get_u32-short v zero rest h = refl
get_u32-short v (suc zero) rest h = refl
get_u32-short v (suc (suc zero)) rest h = refl
get_u32-short v (suc (suc (suc zero))) rest h = refl
get_u32-short v (suc (suc (suc (suc n)))) rest h = absurd (omega arith)

-- A cut in a number ends the block; behind it, the number is read.
after_u32-take :
    (v n : ℕ) (rest : Bytes) (f : ℕ → Bytes → Turn)
    → v < 2 ^ 32
    → ((m : ℕ) → n ≡ m + 4 → f v (take m rest) ≡ ([], err read_failed))
    → after_u32 (get_u32 (take n (put_u32 v ++ rest))) f ≡ ([], err read_failed)
unfolding put_u32
after_u32-take v zero rest f h next = rw (get_u32-short v 0 rest (omega arith)) refl
after_u32-take v (suc zero) rest f h next = rw (get_u32-short v 1 rest (omega arith)) refl
after_u32-take v (suc (suc zero)) rest f h next = rw (get_u32-short v 2 rest (omega arith)) refl
after_u32-take v (suc (suc (suc zero))) rest f h next =
    rw (get_u32-short v 3 rest (omega arith)) refl
after_u32-take v (suc (suc (suc (suc n)))) rest f h next =
    ap (λ o. after_u32 o f) (get_u32-put_u32 v (take n rest) h) ∙ next n (omega arith)

after_full-short :
    (n m : ℕ) (content : Bytes) (f : Bytes → Bytes → Turn)
    → length content ≡ n
    → m < n
    → after_full (read_full n (take m content)) f ≡ ([], err read_failed)
unfolding read_full
after_full-short n m content f e h =
    let short : ltb (length (take m content)) n ≡ true =
      lt→ltb (length (take m content)) n (omega (arith, length-take m content)) in
    rw short refl

pub read_block-cut_frame :
    (frame : Bytes) (n : ℕ)
    → bad_length (length frame) ≡ false
    → n < length frame + 8
    → read_block (take n (write_frame_batch frame)) ≡ ([], err read_failed)
unfolding read_block write_frame_batch read_frames
read_block-cut_frame frame n good h =
    after_u32-take 1 n (put_u32 (length frame) ++ frame) _ (omega arith) (λ m e.
      after_u32-take (length frame) m frame _ (ground arith)
        (λ k e'. rw good (after_full-short (length frame) k frame _ refl (omega arith))))

pub read_block-cut_alive :
    (v : ℕ) (noise : ℕ → ℕ) (n : ℕ)
    → n < keep_alive_size v + 8
    → read_block (take n (write_keep_alive v noise)) ≡ ([], err read_failed)
unfolding read_block write_keep_alive read_keep_alive
read_block-cut_alive v noise n h =
    let size = keep_alive_size v in
    after_u32-take keep_alive_magic n (put_u32 size ++ rand_read size noise) _ (omega arith) (λ m e.
      after_u32-take size m (rand_read size noise) _ (omega (arith, keep_alive_size-bound v))
        (λ k e'. rw (le→ltb max_keep_alive_size size (omega (arith, keep_alive_size-bound v))) (
          after_full-short size k (rand_read size noise) _ (length-rand_read size noise)
            (omega arith))))
