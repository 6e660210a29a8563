-- ===== src/Ssh/RingBuffer.antt =====
-- internal/sshclient/ring_buffer.go: the scrollback buffer of one terminal session.
-- A method that changes `*b` returns the new record; the mutex makes each locked section one step.
pub mod Stream
pub mod Reader
pub mod Growth
pub mod Passes
pub mod Pieces
mod Tests
use lab_remote_go.Common.{
  ℕ, ◌+◌, ◌-◌, ◌*◌, ◌%◌, ◌^◌, min, Bool, true, false, not, ◌||◌, List, [], ◌∷◌, ◌++◌, Option, none,
  some, length, take, drop, ltb, leb, ◌==◌, if◌then◌else◌,
}

-- `notify` carries no data: a wake-up is an event of `Reader`. `start` is a uint64.
pub record RingBuffer : Type 0 where
  pub capacity : ℕ
  pub bytes : List ℕ
  pub start : ℕ
  pub closed : Bool
  pub err_text : List ℕ

-- uint64 addition
abbrev pub add_u64 : ℕ → ℕ → ℕ
add_u64 a b = (a + b) % 2 ^ 64

-- `NewRingBuffer`; a negative capacity takes the branch of 0
unfoldable pub new_ring_buffer : ℕ → RingBuffer
new_ring_buffer capacity = record {
  capacity = if ltb capacity 1024 then 1024 else capacity;
  bytes = [];
  start = 0;
  closed = false;
  err_text = [];
}

-- Go's `copy(dst, src)` for a source no longer than the destination
abbrev pub copy : List ℕ → List ℕ → List ℕ
copy dst src = src ++ drop (length src) dst

-- the locked section of `Append` after the test of `closed`
unfoldable pub append_open : RingBuffer → List ℕ → RingBuffer
append_open b value =
    let bytes : List ℕ = b.bytes ++ value in
    let excess : ℕ = length bytes - b.capacity in
    if ltb b.capacity (length bytes)
    then record b {
      bytes = take b.capacity (copy bytes (drop excess bytes));
      start = add_u64 b.start excess;
    }
    else record b { bytes = bytes }

unfoldable pub append : RingBuffer → List ℕ → RingBuffer
append b value = if b.closed then b else append_open b value

unfoldable pub close : RingBuffer → List ℕ → RingBuffer
close b err_text = if b.closed then b else record b { closed = true; err_text = err_text }

-- What `Read` returns: (data, next, open, truncated, errText).
pub record ReadResult : Type 0 where
  pub chunk : List ℕ
  pub next : ℕ
  pub is_open : Bool
  pub truncated : Bool
  pub err_text : List ℕ

-- A pass of the loop of `Read` under the lock returns, or leaves the cursor and the flag with
-- which the reader waits.
pub data Pass : Type 0 where
  returned : ReadResult → Pass
  waiting : ℕ → Bool → Pass

-- the default when `maxBytes` is out of (0, 1 MiB]; a negative one takes the branch of 0
abbrev pub effective_max : ℕ → ℕ
effective_max max_bytes = if max_bytes == 0 || ltb (1024 * 1024) max_bytes then 65536 else max_bytes

-- the branch of `Read` for a cursor below the end
unfoldable pub read_chunk : RingBuffer → ℕ → Bool → ℕ → ReadResult
read_chunk b cursor truncated max_bytes =
    let offset : ℕ = cursor - b.start in
    let count : ℕ = min (length b.bytes - offset) max_bytes in
    record {
      chunk = take count (drop offset b.bytes);
      next = add_u64 cursor count;
      is_open = not b.closed;
      truncated = truncated;
      err_text = b.err_text;
    }

-- One pass. The cursor is at least `start` after the first test, so the subtraction is exact.
-- `waits` is `wait > 0`.
unfoldable pub pass : RingBuffer → ℕ → Bool → ℕ → Bool → Pass
pass b cursor truncated max_bytes waits =
    let late : Bool = ltb cursor b.start in
    let cursor' : ℕ = if late then b.start else cursor in
    let truncated' : Bool = if late then true else truncated in
    if ltb cursor' (add_u64 b.start (length b.bytes))
    then returned (read_chunk b cursor' truncated' max_bytes)
    else if b.closed || not waits
    then returned (record {
      chunk = [];
      next = cursor';
      is_open = not b.closed;
      truncated = truncated';
      err_text = b.err_text;
    })
    else waiting cursor' truncated'
