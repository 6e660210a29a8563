-- ===== src/Ssh/RingBuffer/Stream.antt =====
-- The ring buffer against the stream of all bytes that the terminal has written.
use lab_remote_go.Common.{
  append-nil, ℕ, ◌+◌, ◌-◌, ◌^◌, ◌≤◌, ◌<◌, ◌≡◌, refl, ap, ◌∙◌, List, [], ◌++◌, arith, length, take,
  drop, length-append, length-drop, take-append_of_length, drop-append, sym, inl, inr, drop-drop,
  if◌then◌else◌, Bool-cases,
}
use lab_remote_go.Ssh.RingBuffer.{RingBuffer, copy, new_ring_buffer, append_open, append, close}

-- `h` is everything accepted so far. The buffer holds its last `capacity` bytes, and `start` is
-- the position of the first of them.
pub record Holds (b : RingBuffer) (h : List ℕ) : Type 0 where
  pub roomy : 1024 ≤ b.capacity
  pub window : b.bytes ≡ drop b.start h
  pub kept : b.start ≡ length h - b.capacity
  pub small : length h < 2 ^ 64

-- A new buffer holds the empty stream.
pub new_ring_buffer-Holds : (capacity : ℕ) → Holds (new_ring_buffer capacity) []
unfolding new_ring_buffer
new_ring_buffer-Holds capacity = ground arith

pub length-bytes : {b : RingBuffer} (h : List ℕ) → Holds b h → length b.bytes ≡ length h - b.start
length-bytes {b} h v = ap length v.window ∙ length-drop b.start h

-- Moving the tail to the front and cutting the rest leaves the tail.
copy-drop :
    (n : ℕ) (xs : List ℕ)
    → n ≤ length xs
    → take n (copy xs (drop (length xs - n) xs)) ≡ drop (length xs - n) xs
copy-drop n xs h =
    take-append_of_length n (drop (length xs - n) xs) _
      (omega (arith, length-drop (length xs - n) xs))

joined :
    {b : RingBuffer} (h value : List ℕ) → Holds b h → b.bytes ++ value ≡ drop b.start (h ++ value)
joined {b} h value v = rw v.window (sym (drop-append b.start h value (omega arith)))

-- What `Append` leaves, on both branches.
append_open_lem :
    {b : RingBuffer} (h value : List ℕ)
    → Holds b h
    → length h + length value < 2 ^ 64
    → let start : ℕ = length h + length value - b.capacity in
      append_open b value ≡ record b { bytes = drop start (h ++ value); start = start }
unfolding append_open
append_open_lem {b} h value v small = ground (
  arith,
  joined h value v,
  length-append b.bytes value,
  length-bytes h v,
  copy-drop b.capacity (b.bytes ++ value),
  drop-drop (length (b.bytes ++ value) - b.capacity) b.start (h ++ value),
)

append_open-Holds :
    {b : RingBuffer} (h value : List ℕ)
    → Holds b h
    → length h + length value < 2 ^ 64
    → Holds (append_open b value) (h ++ value)
append_open-Holds {b} h value v small = rw (append_open_lem h value v small) (record {
  roomy = v.roomy;
  window = refl;
  kept = omega (arith, length-append h value);
  small = omega (arith, length-append h value);
})

abbrev pub accepted : RingBuffer → List ℕ → List ℕ
accepted b value = if b.closed then [] else value

-- `Append` extends the stream by the value, or leaves it once the buffer is closed.
pub append-Holds :
    {b : RingBuffer} (h value : List ℕ)
    → Holds b h
    → length h + length value < 2 ^ 64
    → Holds (append b value) (h ++ accepted b value)
unfolding append
append-Holds {b} h value v small = elim (Bool-cases b.closed) [
  | inl e ↦ simp (e, append-nil) v
  | inr e ↦ simp e (append_open-Holds h value v small)
]

-- `Close` leaves the stream.
pub close-Holds : {b : RingBuffer} (h err_text : List ℕ) → Holds b h → Holds (close b err_text) h
unfolding close
close-Holds {b} h err_text v = ground arith
