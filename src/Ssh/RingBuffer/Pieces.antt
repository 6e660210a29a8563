-- ===== src/Ssh/RingBuffer/Pieces.antt =====
-- What `RingBuffer.Read` returns of the stream.
use lab_remote_go.Common.{
  not, some-inj, ℕ, ◌+◌, ◌^◌, ◌≤◌, ◌<◌, ◌≡◌, refl, Bool, true, false, List, [], ◌∷◌, ◌++◌, ◌||◌,
  Option, some, suc, take, ap, sym, ◌∙◌, arith, length, length-append, ltb, max, append_assoc,
  append-nil, ◌⊎◌,
}
use mathlib.Core.Path.{subst}
use lab_remote_go.Ssh.RingBuffer.{
  RingBuffer, ReadResult, Pass, returned, waiting, effective_max, pass,
}
use lab_remote_go.Ssh.RingBuffer.Stream.{Holds}
use lab_remote_go.Ssh.RingBuffer.Reader.{
  Op, apply, Wake, notified, cancelled, expired, gave_up, settle, read_loop, read, offered_by,
}
use lab_remote_go.Ssh.RingBuffer.Growth.{
  written, done_by, written-append, length-written, capacity-apply, closed-apply, apply-append,
  apply-Holds,
}
use lab_remote_go.Ssh.RingBuffer.Passes.{
  Piece, pass-Piece, pass-waiting, pass-available, pass-no_wait, gave_up-Piece, Piece-earlier,
}

-- The outcome of a read from position `from` that began when the buffer held `h`: it answered after
-- `seen` of the wake-ups, from what the writers had made of the buffer by then.
pub record Outcome (b : RingBuffer) (h : List ℕ) (from : ℕ) (late : Bool) (wakes : List Wake)
    (out : ReadResult × RingBuffer) : Type 0 where
  pub seen : ℕ
  pub state : out.1 ≡ apply b (done_by (take seen wakes))
  pub holds : Holds out.1 (h ++ written b.closed (done_by (take seen wakes)))
  pub found : Piece out.1 (h ++ written b.closed (done_by (take seen wakes))) from late out.0

at_once :
    {b : RingBuffer} (h : List ℕ) (from : ℕ) (late : Bool) (wakes : List Wake) (r : ReadResult)
    → Holds b h
    → Piece b h from late r
    → Outcome b h from late wakes (r, b)
unfolding apply
at_once h from late wakes r v found = record {
  seen = 0;
  state = refl;
  holds = rw append-nil v;
  found = rw append-nil found;
}

settle-Outcome :
    {b : RingBuffer} (h : List ℕ) (from : ℕ) (late : Bool) (max_bytes : ℕ) (waits : Bool)
    (wakes : List Wake) {out : ReadResult × RingBuffer} (p : Pass)
    (k : ℕ → Bool → Option (ReadResult × RingBuffer))
    → Holds b h
    → pass b from late max_bytes waits ≡ p
    → ((c : ℕ) (t : Bool)
        → c ≡ max from b.start
        → t ≡ (late || ltb from b.start)
        → k c t ≡ some out
        → Outcome b h from late wakes out)
    → settle b p k ≡ some out
    → Outcome b h from late wakes out
settle-Outcome {b} h from late max_bytes waits wakes (returned r) k v e next done =
    subst (λ o. Outcome b h from late wakes o) (some-inj done)
      (at_once h from late wakes r v (pass-Piece h from late max_bytes waits r v e))
settle-Outcome {b} h from late max_bytes waits wakes (waiting c t) k v e next done =
    let w = pass-waiting h from late max_bytes waits c t v e in next c t w.0 w.1 done

gave_up-Outcome :
    {b : RingBuffer} (h : List ℕ) (from c : ℕ) (late t : Bool) (err_text : List ℕ)
    (wakes : List Wake) {out : ReadResult × RingBuffer}
    → Holds b h
    → c ≡ max from b.start
    → t ≡ (late || ltb from b.start)
    → ◌≡◌ {A = Option (ReadResult × RingBuffer)} (some (gave_up c t err_text, b)) (some out)
    → Outcome b h from late wakes out
gave_up-Outcome {b} h from c late t err_text wakes v e e' done =
    subst (λ o. Outcome b h from late wakes o) (some-inj done)
      (at_once h from late wakes (gave_up c t err_text) v
        (gave_up-Piece h from c late t err_text e e'))

-- A read that resumes after a wake-up continues the read that it was.
resumed-Outcome :
    {b : RingBuffer} (ops : List Op) (wakes : List Wake) (h : List ℕ) (from c : ℕ) (late t : Bool)
    {out : ReadResult × RingBuffer}
    → Holds b h
    → c ≡ max from b.start
    → t ≡ (late || ltb from b.start)
    → Outcome (apply b ops) (h ++ written b.closed ops) c t wakes out
    → Outcome b h from late (notified ops ∷ wakes) out
resumed-Outcome {b} ops wakes h from c late t {out} v e e' o =
    let later : List Op = done_by (take o.seen wakes) in
    record {
      seen = suc o.seen;
      state = o.state ∙ sym (apply-append ops later b);
      holds = subst (Holds out.1) same o.holds;
      found =
          Piece-earlier b (h ++ written b.closed (ops ++ later)) from c late t out.0 e e' start_le
            (subst (λ s. Piece out.1 s c t out.0) same o.found);
    }
  where
    same :
        (h ++ written b.closed ops) ++ written (apply b ops).closed (done_by (take o.seen wakes))
        ≡ h ++ written b.closed (ops ++ done_by (take o.seen wakes))
    same =
        rw
          (
            closed-apply ops b,
            append_assoc,
            written-append b.closed ops (done_by (take o.seen wakes)),
          )
          refl

    start_le : b.start ≤ out.1.start
    start_le =
        let later : List Op = done_by (take o.seen wakes) in
        omega (
          arith,
          v.kept,
          o.holds.kept,
          ap (λ x. x.capacity) o.state,
          capacity-apply later (apply b ops),
          capacity-apply ops b,
          length-append h (written b.closed ops),
          length-append (h ++ written b.closed ops) (written (apply b ops).closed later),
        )

pub read_loop-Outcome :
    (wakes : List Wake) {b : RingBuffer} (h : List ℕ) (from : ℕ) (late : Bool) (max_bytes : ℕ)
    (waits : Bool) {out : ReadResult × RingBuffer}
    → Holds b h
    → length h + offered_by wakes < 2 ^ 64
    → read_loop b from late max_bytes waits wakes ≡ some out
    → Outcome b h from late wakes out
unfolding read_loop
read_loop-Outcome [] h from late max_bytes waits v small =
    settle-Outcome h from late max_bytes waits [] _ _ v refl (λ c t e e' k. cc)
read_loop-Outcome (notified ops ∷ wakes) {b} h from late max_bytes waits {out} v small =
    let more : List ℕ = written b.closed ops in
    settle-Outcome h from late max_bytes waits (notified ops ∷ wakes) _ _ v refl (λ c t e e' k.
      resumed-Outcome ops wakes h from c late t v e e' (
        read_loop-Outcome wakes (h ++ more) c t max_bytes waits (apply-Holds ops h v (omega arith))
          (omega (arith, length-written b.closed ops, length-append h more)) k))
read_loop-Outcome (cancelled text ∷ wakes) h from late max_bytes waits v small =
    settle-Outcome h from late max_bytes waits (cancelled text ∷ wakes) _ _ v refl
      (λ c t e e'. gave_up-Outcome h from c late t text (cancelled text ∷ wakes) v e e')
read_loop-Outcome (expired ∷ wakes) h from late max_bytes waits v small =
    settle-Outcome h from late max_bytes waits (expired ∷ wakes) _ _ v refl
      (λ c t e e'. gave_up-Outcome h from c late t [] (expired ∷ wakes) v e e')

-- `Read` from position `from` answers after some of the wake-ups. The stream is then what the buffer
-- had been given before, and every byte that was appended in those wake-ups while the buffer was open.
-- The read returns consecutive bytes of that stream from that position, or from the oldest byte that
-- is kept if that is later; `next` is the position after them, and `truncated` is set exactly when bytes
-- from `from` on were lost; the buffer keeps the last `capacity` bytes of the stream. The stream has
-- less than 2^64 bytes.
pub read_lem :
    (wakes : List Wake) {b : RingBuffer} (h : List ℕ) (from max_bytes : ℕ) (waits : Bool)
    {out : ReadResult × RingBuffer}
    → Holds b h
    → length h + offered_by wakes < 2 ^ 64
    → read b from max_bytes waits wakes ≡ some out
    → Outcome b h from false wakes out
unfolding read
read_lem wakes h from max_bytes waits v small e =
    read_loop-Outcome wakes h from false (effective_max max_bytes) waits v small e

settled :
    {b : RingBuffer} (from : ℕ) (late : Bool) (max_bytes : ℕ) (waits : Bool) (r : ReadResult)
    (wakes : List Wake)
    → pass b from late max_bytes waits ≡ returned r
    → read_loop b from late max_bytes waits wakes ≡ some (r, b)
unfolding read_loop
settled from late max_bytes waits r [] e = rw e
settled from late max_bytes waits r (notified ops ∷ wakes) e = rw e
settled from late max_bytes waits r (cancelled text ∷ wakes) e = rw e
settled from late max_bytes waits r (expired ∷ wakes) e = rw e

-- A read of a position that has been written returns at once, with at least one byte and at most
-- the effective maximum.
pub read_available :
    (wakes : List Wake) {b : RingBuffer} (h : List ℕ) (from max_bytes : ℕ) (waits : Bool)
    → Holds b h
    → from < length h
    → (r : ReadResult) × (read b from max_bytes waits wakes ≡ some (r, b))
      × (0 < length r.chunk)
      × (length r.chunk ≤ effective_max max_bytes)
unfolding read
read_available wakes h from max_bytes waits v lt =
    let (r, e, pos, bound) =
      pass-available h from false (effective_max max_bytes) waits v lt (ground arith) in
    (r, settled from false (effective_max max_bytes) waits r wakes e, pos, bound)

-- A read that need not wait, of a closed buffer or without a deadline, returns whatever the wake-ups.
pub read_no_wait :
    (wakes : List Wake) (b : RingBuffer) (from max_bytes : ℕ) (waits : Bool)
    → (b.closed ≡ true) ⊎ (waits ≡ false)
    → (r : ReadResult) × (read b from max_bytes waits wakes ≡ some (r, b))
      × (r.is_open ≡ not b.closed)
unfolding read
read_no_wait wakes b from max_bytes waits h =
    let (r, e, o) = pass-no_wait b from (effective_max max_bytes) waits h in
    (r, settled from false (effective_max max_bytes) waits r wakes e, o)
