-- ===== src/Ssh/RingBuffer/Tests.antt =====
-- Runs and witnesses for the ring buffer.
use lab_remote_go.Common.{
  ℕ, ◌<◌, ◌≤◌, ◌≡◌, refl, true, false, not, List, [], ◌∷◌, some, inr, arith, length, replicate,
  ◌++◌,
}
use lab_remote_go.Ssh.RingBuffer.{
  RingBuffer, new_ring_buffer, append, append_open, ReadResult, pass, read_chunk, effective_max,
}
use lab_remote_go.Ssh.RingBuffer.Stream.{Holds}
use lab_remote_go.Ssh.RingBuffer.Reader.{append_op, apply, notified, read_loop, read}
use lab_remote_go.Ssh.RingBuffer.Pieces.{Outcome, read_lem, read_available, read_no_wait}

-- 1026 bytes in a buffer of 1024: the first two are lost
abbrev flood : List ℕ
flood = replicate 1023 7 ++ (8 ∷ 9 ∷ 10 ∷ [])

abbrev full : RingBuffer
full = record {
  capacity = 1024;
  bytes = replicate 1021 7 ++ (8 ∷ 9 ∷ 10 ∷ []);
  start = 2;
  closed = false;
  err_text = [];
}

flood_keeps_tail : append (new_ring_buffer 0) flood ≡ full
unfolding append append_open new_ring_buffer
flood_keeps_tail = refl

full-Holds : Holds full flood
full-Holds = record { roomy = omega arith; window = refl; kept = refl; small = omega arith }

-- the reader waits for one byte at the end of the stream, and then gets it
abbrev late_answer : ReadResult × RingBuffer
late_answer = (
  record { chunk = 1 ∷ []; next = 1027; is_open = true; truncated = false; err_text = [] },
  record full { bytes = replicate 1020 7 ++ (8 ∷ 9 ∷ 10 ∷ 1 ∷ []); start = 3 },
)

waits_then_reads :
    read full 1026 100 true (notified (append_op (1 ∷ []) ∷ []) ∷ []) ≡ some late_answer
unfolding read read_loop pass read_chunk apply append append_open
waits_then_reads = refl

read_lem_example :
    Outcome full flood 1026 false (notified (append_op (1 ∷ []) ∷ []) ∷ []) late_answer
read_lem_example =
    read_lem (notified (append_op (1 ∷ []) ∷ []) ∷ []) flood 1026 100 true full-Holds (omega arith)
      waits_then_reads

read_available_example :
    (r : ReadResult) × (read full 0 100 true [] ≡ some (r, full))
    × (0 < length r.chunk)
    × (length r.chunk ≤ effective_max 100)
read_available_example = read_available [] flood 0 100 true full-Holds (omega arith)

read_no_wait_example :
    (r : ReadResult) × (read full 1026 100 false [] ≡ some (r, full))
    × (r.is_open ≡ not full.closed)
read_no_wait_example = read_no_wait [] full 1026 100 false (inr refl)
