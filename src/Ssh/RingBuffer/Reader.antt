-- ===== src/Ssh/RingBuffer/Reader.antt =====
-- `RingBuffer.Read`: its passes under the lock, and the waits between them.
use lab_remote_go.Common.{ℕ, ◌+◌, Bool, true, false, List, [], ◌∷◌, Option, none, some, length}
use lab_remote_go.Ssh.RingBuffer.{
  RingBuffer, append, close, ReadResult, Pass, returned, waiting, effective_max, pass,
}

-- the terminal's side of the buffer
pub data Op : Type 0 where
  append_op : List ℕ → Op
  close_op : List ℕ → Op

unfoldable pub apply : RingBuffer → List Op → RingBuffer
apply b [] = b
apply b (append_op value ∷ ops) = apply (append b value) ops
apply b (close_op err_text ∷ ops) = apply (close b err_text) ops

-- What ends a wait: `notify` is closed, and the terminal's side has done `ops` by the time that the
-- reader has the lock again; the context is done; the deadline has passed.
pub data Wake : Type 0 where
  notified : List Op → Wake
  cancelled : List ℕ → Wake
  expired : Wake

abbrev pub gave_up : ℕ → Bool → List ℕ → ReadResult
gave_up cursor truncated err_text = record {
  chunk = [];
  next = cursor;
  is_open = true;
  truncated = truncated;
  err_text = err_text;
}

-- what the loop does with a pass: return, or go on with the moved cursor
abbrev pub settle :
    RingBuffer
    → Pass
    → (ℕ → Bool → Option (ReadResult × RingBuffer))
    → Option (ReadResult × RingBuffer)
settle b (returned r) k = some (r, b)
settle b (waiting cursor truncated) k = k cursor truncated

-- The loop of `Read`, on the wake-ups in their order, with the buffer as its last pass saw it.
-- `none`: the reader still waits.
unfoldable pub read_loop :
    RingBuffer → ℕ → Bool → ℕ → Bool → List Wake → Option (ReadResult × RingBuffer)
read_loop b cursor truncated max_bytes waits [] =
    settle b (pass b cursor truncated max_bytes waits) (λ c t. none)
read_loop b cursor truncated max_bytes waits (notified ops ∷ wakes) =
    settle b (pass b cursor truncated max_bytes waits)
      (λ c t. read_loop (apply b ops) c t max_bytes waits wakes)
read_loop b cursor truncated max_bytes waits (cancelled err_text ∷ wakes) =
    settle b (pass b cursor truncated max_bytes waits) (λ c t. some (gave_up c t err_text, b))
read_loop b cursor truncated max_bytes waits (expired ∷ wakes) =
    settle b (pass b cursor truncated max_bytes waits) (λ c t. some (gave_up c t [], b))

unfoldable pub read : RingBuffer → ℕ → ℕ → Bool → List Wake → Option (ReadResult × RingBuffer)
unfolding read_loop
read b cursor max_bytes waits wakes = read_loop b cursor false (effective_max max_bytes) waits wakes

-- how many bytes the terminal offers
abbrev pub offered : List Op → ℕ
offered [] = 0
offered (append_op value ∷ ops) = length value + offered ops
offered (close_op err_text ∷ ops) = offered ops

abbrev pub offered_by : List Wake → ℕ
offered_by [] = 0
offered_by (notified ops ∷ wakes) = offered ops + offered_by wakes
offered_by (cancelled err_text ∷ wakes) = offered_by wakes
offered_by (expired ∷ wakes) = offered_by wakes
