-- ===== src/Ssh/RingBuffer/Passes.antt =====
-- One pass of the loop of `RingBuffer.Read`, and what its result says of the stream.
use lab_remote_go.Common.{
  not, ℕ, ◌+◌, ◌-◌, ◌≤◌, ◌<◌, ◌≡◌, refl, Bool, true, false, List, ◌||◌, arith, length, take, drop,
  length-drop, length-take, drop-drop, ltb, min, max, inl, inr, ◌⊎◌,
}
use lab_remote_go.Ssh.RingBuffer.{RingBuffer, ReadResult, Pass, returned, waiting, read_chunk, pass}
use lab_remote_go.Ssh.RingBuffer.Stream.{Holds, length-bytes}
use lab_remote_go.Ssh.RingBuffer.Reader.{gave_up}

-- What a result says of the stream `h`, for a read that was asked for position `from`.
pub record Piece (b : RingBuffer) (h : List ℕ) (from : ℕ) (late : Bool) (r : ReadResult)
    : Type 0 where
  pub piece : r.chunk ≡ take (length r.chunk) (drop (max from b.start) h)
  pub advance : r.next ≡ max from b.start + length r.chunk
  pub reported : r.truncated ≡ (late || ltb from b.start)

pub Pass-cases :
    (p : Pass) → ((r : ReadResult) × (p ≡ returned r)) ⊎ ((c : ℕ) × (t : Bool) × (p ≡ waiting c t))
Pass-cases (returned r) = inl (r, refl)
Pass-cases (waiting c t) = inr (c, t, refl)

pub read_chunk-Piece :
    {b : RingBuffer} (h : List ℕ) (from c : ℕ) (t : Bool) (max_bytes : ℕ)
    → Holds b h
    → c ≡ max from b.start
    → c < length h
    → let r = read_chunk b c t max_bytes in
      (r.chunk ≡ take (length r.chunk) (drop c h))
      × (r.next ≡ c + length r.chunk)
      × (r.truncated ≡ t)
      × (length r.chunk ≤ max_bytes)
      × (0 < max_bytes → 0 < length r.chunk)
unfolding read_chunk
read_chunk-Piece {b} h from c t max_bytes v e lt =
    let offset : ℕ = c - b.start in
    let count : ℕ = min (length b.bytes - offset) max_bytes in
    ground (
      arith,
      length-bytes h v,
      drop-drop offset b.start h,
      length-take count (drop offset b.bytes),
      length-drop offset b.bytes,
    )

-- A pass that returns gives a piece of the stream; one that waits has moved the cursor to `start` if
-- it was behind.
pub pass-Piece :
    {b : RingBuffer} (h : List ℕ) (from : ℕ) (late : Bool) (max_bytes : ℕ) (waits : Bool)
    (r : ReadResult)
    → Holds b h
    → pass b from late max_bytes waits ≡ returned r
    → Piece b h from late r
unfolding pass
pass-Piece {b} h from late max_bytes waits r v e = ground (
  arith,
  length-bytes h v,
  read_chunk-Piece h from (max from b.start) (late || ltb from b.start) max_bytes v,
)

pub pass-waiting :
    {b : RingBuffer} (h : List ℕ) (from : ℕ) (late : Bool) (max_bytes : ℕ) (waits : Bool) (c : ℕ)
    (t : Bool)
    → Holds b h
    → pass b from late max_bytes waits ≡ waiting c t
    → (c ≡ max from b.start) × (t ≡ (late || ltb from b.start)) × (length h ≤ c) × (waits ≡ true)
unfolding pass
pass-waiting {b} h from late max_bytes waits c t v e = ground (arith, length-bytes h v)

pub pass-available :
    {b : RingBuffer} (h : List ℕ) (from : ℕ) (late : Bool) (max_bytes : ℕ) (waits : Bool)
    → Holds b h
    → from < length h
    → 0 < max_bytes
    → (r : ReadResult) × (pass b from late max_bytes waits ≡ returned r)
      × (0 < length r.chunk)
      × (length r.chunk ≤ max_bytes)
unfolding pass
pass-available {b} h from late max_bytes waits v lt pos = (
  read_chunk b (max from b.start) (late || ltb from b.start) max_bytes,
  ground (arith, length-bytes h v),
  ground (arith, read_chunk-Piece h from (max from b.start) (late || ltb from b.start) max_bytes v),
  ground (arith, read_chunk-Piece h from (max from b.start) (late || ltb from b.start) max_bytes v),
)

pub pass-no_wait :
    (b : RingBuffer) (from max_bytes : ℕ) (waits : Bool)
    → (b.closed ≡ true) ⊎ (waits ≡ false)
    → (r : ReadResult) × (pass b from false max_bytes waits ≡ returned r)
      × (r.is_open ≡ not b.closed)
unfolding pass read_chunk
pass-no_wait b from max_bytes waits h = elim (Pass-cases (pass b from false max_bytes waits)) [
  | inl (r, e) ↦ (r, e, ground arith)
  | inr (c, t, e) ↦ absurd (ground arith)
]

-- A read that gives up after a wait returns the empty piece at its cursor.
pub gave_up-Piece :
    {b : RingBuffer} (h : List ℕ) (from c : ℕ) (late t : Bool) (err_text : List ℕ)
    → c ≡ max from b.start
    → t ≡ (late || ltb from b.start)
    → Piece b h from late (gave_up c t err_text)
gave_up-Piece h from c late t err_text e e' = record {
  piece = refl;
  advance = omega arith;
  reported = e';
}

-- A piece for the moved cursor is one for the first cursor, since `start` only grows.
pub Piece-earlier :
    (b : RingBuffer) {b' : RingBuffer} (h : List ℕ) (from c : ℕ) (late t : Bool) (r : ReadResult)
    → c ≡ max from b.start
    → t ≡ (late || ltb from b.start)
    → b.start ≤ b'.start
    → Piece b' h c t r
    → Piece b' h from late r
Piece-earlier b {b'} h from c late t r e e' le p =
    let same : max c b'.start ≡ max from b'.start = omega arith in
    record {
      piece = rw (← same) p.piece;
      advance = rw (← same) p.advance;
      reported = ground (arith, p.reported);
    }
