-- ===== src/SoftEther/Session/Framing.antt =====
-- What `readLoop` does with any stream.
use lab_remote_go.Common.{
  ℕ, zero, suc, ◌+◌, ◌≤◌, ◌<◌, ◌≡◌, refl, ◌≢◌, true, false, List, [], ◌∷◌, ◌++◌, none, arith,
  length, Bytes, get_u32, read_full, ltb, take, drop, length-take, length-drop, if◌then◌else◌, ◌==◌,
  Bool-cases, inl, inr, Bool,
}
use lab_remote_go.Common.Results.{err, ok}
use lab_remote_go.SoftEther.Session.{
  max_ethernet_frame, read_failed, bad_keep_alive, too_many_frames, bad_frame_length, StopReason,
  bad_length, Turn, stops, with_frame, after_u32, after_full, read_frames, read_keep_alive,
  read_block, go_on, read_loop, max_block, keep_alive_magic, max_keep_alive_size,
}

-- Every frame has the length of an Ethernet frame.
abbrev pub AllSized : List Bytes → Type 0
AllSized [] = Unit {0}
AllSized (frame ∷ frames) =
    ((14 ≤ length frame) × (length frame ≤ max_ethernet_frame)) × AllSized frames

AllSized-append : (xs ys : List Bytes) → AllSized xs → AllSized ys → AllSized (xs ++ ys)
AllSized-append [] ys p q = q
AllSized-append (x ∷ xs) ys p q = (p.0, AllSized-append xs ys p.1 q)

-- A turn that goes on leaves less than `bound` bytes, and its frames are well sized.
record Sound (bound : ℕ) (turn : Turn) : Type 0 where
  sized : AllSized turn.0
  shorter : (src : Bytes) → turn.1 ≡ ok src → length src < bound

stops-Sound : (bound : ℕ) (reason : StopReason) → Sound bound (stops reason)
stops-Sound bound reason = record { sized = tt; shorter = λ src e. absurd (cc) }

after_u32-Sound :
    (bound : ℕ) (src : Bytes) (f : ℕ → Bytes → Turn)
    → ((n : ℕ) (rest : Bytes) → length rest + 4 ≤ length src → Sound bound (f n rest))
    → Sound bound (after_u32 (get_u32 src) f)
unfolding get_u32
after_u32-Sound bound (a ∷ b ∷ c ∷ d ∷ rest) f h = h _ rest (omega arith)
after_u32-Sound bound (a ∷ b ∷ c ∷ []) f h = stops-Sound bound read_failed
after_u32-Sound bound (a ∷ b ∷ []) f h = stops-Sound bound read_failed
after_u32-Sound bound (a ∷ []) f h = stops-Sound bound read_failed
after_u32-Sound bound [] f h = stops-Sound bound read_failed

after_full-Sound :
    (bound n : ℕ) (src : Bytes) (f : Bytes → Bytes → Turn)
    → ((content rest : Bytes)
        → length content ≡ n
        → length rest ≤ length src
        → Sound bound (f content rest))
    → Sound bound (after_full (read_full n src) f)
unfolding read_full
after_full-Sound bound n src f h = elim (Bool-cases (ltb (length src) n)) [
  | inl short ↦ rw short (stops-Sound bound read_failed)
  | inr long ↦ rw long (
      h (take n src) (drop n src) (ground (arith, length-take n src))
        (omega (arith, length-drop n src)))
]

if-Sound :
    (bound : ℕ) (b : Bool) (x y : Turn)
    → Sound bound x
    → (b ≡ false → Sound bound y)
    → Sound bound (if b then x else y)
if-Sound bound true x y p q = p
if-Sound bound false x y p q = q refl

with_frame-Sound :
    (bound : ℕ) (frame : Bytes) (turn : Turn)
    → bad_length (length frame) ≡ false
    → Sound bound turn
    → Sound bound (with_frame frame turn)
with_frame-Sound bound frame turn good h = record {
  sized = ((ground arith, ground arith), h.sized);
  shorter = h.shorter;
}

read_frames-Sound :
    (count bound : ℕ) (src : Bytes) → length src < bound → Sound bound (read_frames count src)
unfolding read_frames
read_frames-Sound zero bound src h = record { sized = tt; shorter = λ src' e. ground arith }
read_frames-Sound (suc count) bound src h = after_u32-Sound bound src _ (λ size rest r.
    if-Sound bound (bad_length size) _ _ (stops-Sound bound bad_frame_length) (λ good.
      after_full-Sound bound size rest _ (λ frame rest' e q.
        with_frame-Sound bound frame _ (rw e good)
          (read_frames-Sound count bound rest' (omega arith)))))

read_keep_alive-Sound :
    (bound : ℕ) (src : Bytes) → length src < bound → Sound bound (read_keep_alive src)
unfolding read_keep_alive
read_keep_alive-Sound bound src h = after_u32-Sound bound src _ (λ size rest r.
    if-Sound bound (ltb max_keep_alive_size size) _ _ (stops-Sound bound bad_keep_alive) (λ good.
      after_full-Sound bound size rest _
        (λ noise rest' e q. record { sized = tt; shorter = λ src' same. ground arith })))

read_block-Sound : (src : Bytes) → Sound (length src) (read_block src)
unfolding read_block
read_block-Sound src = after_u32-Sound (length src) src _ (λ count rest r.
    elim (Bool-cases (count == keep_alive_magic)) [
      | inl alive ↦ rw alive (read_keep_alive-Sound (length src) rest (omega arith))
      | inr frames ↦ rw frames (
          if-Sound (length src) (ltb max_block count) _ _ (stops-Sound (length src) too_many_frames)
            (λ good. read_frames-Sound count (length src) rest (omega arith)))
    ])

go_on-AllSized :
    (bound fuel : ℕ) (turn : Turn)
    → bound ≤ fuel
    → Sound bound turn
    → ((rest : Bytes)
        → length rest < fuel
        → AllSized (read_loop fuel rest).0 × ((read_loop fuel rest).1 ≢ none))
    → let r = go_on turn (λ rest. read_loop fuel rest) in AllSized r.0 × (r.1 ≢ none)
go_on-AllSized bound fuel (frames, err reason) le h k = (h.sized, λ e. absurd (cc))
go_on-AllSized bound fuel (frames, ok rest) le h k =
    let (sized, ends) = k rest (omega (arith, h.shorter rest refl)) in
    (AllSized-append frames (read_loop fuel rest).0 h.sized sized, ends)

-- Whatever the server sends, `readLoop` hands on only frames of 14 to 65536 bytes, and on a stream
-- that ends it stops: fuel beyond the length of the stream is enough.
pub read_loop-AllSized :
    (fuel : ℕ) (src : Bytes)
    → length src < fuel
    → AllSized (read_loop fuel src).0 × ((read_loop fuel src).1 ≢ none)
unfolding read_loop
read_loop-AllSized zero src h = absurd (omega arith)
read_loop-AllSized (suc fuel) src h =
    go_on-AllSized (length src) fuel (read_block src) (omega arith) (read_block-Sound src)
      (λ rest r. read_loop-AllSized fuel rest r)
