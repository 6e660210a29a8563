-- ===== src/Ssh/Upload/Prefix.antt =====
-- The bytes before the safe offset are the local file's.
use lab_remote_go.Common.{
  ℕ, zero, suc, ◌+◌, ◌-◌, ◌*◌, ◌/◌, ◌≤◌, ◌<◌, ◌≡◌, refl, Bool, true, false, not, ◌&&◌, ◌||◌, List,
  [], ◌∷◌, Option, none, some, ltb, ◌==◌, arith, Bool-cases, if-rule, &&_true, inl, inr, lt→ltb,
}
use lab_remote_go.Ssh.Upload.{
  upload_packet_size, chunk_count, Chunk, nth_chunk, TransferError, Outcome, unread, returned,
  written_of, error_of, Collector, flush_progress, acknowledge, insert_index, delete_index, advance,
  settle_chunk, collect, Transfer, new_transfer, write_at, is_some, Event, dispatch, result,
  give_up, cancel, step_transfer, run_transfer, safe_bytes, finished_chunk, can_dispatch, hand_out,
  drop_chunk,
}

-- The chunk is completed, or before the safe offset.
abbrev pub covered : Collector → ℕ → Bool
covered c i = c.completed i || ltb i c.next_safe

pub advance-covered : (fuel : ℕ) (c : Collector) (k : ℕ) → covered (advance fuel c) k ≡ covered c k
unfolding advance
advance-covered zero c k = refl
advance-covered (suc fuel) c k =
    let c' : Collector = record c {
      completed = delete_index c.next_safe c.completed;
      next_safe = c.next_safe + 1;
    } in
    ground (arith, advance-covered fuel c' k)

pub acknowledge-covered :
    (due : Bool) (n : ℕ) (c : Collector) (k : ℕ) → covered (acknowledge due n c) k ≡ covered c k
unfolding acknowledge flush_progress
acknowledge-covered due n c k = ground arith

settle_chunk-covered :
    (count i : ℕ) (e : Option TransferError) (c : Collector) (k : ℕ)
    → covered (settle_chunk count i e c) k ≡ ((not (is_some e) && i == k) || covered c k)
settle_chunk-covered count i none c k =
    ground (arith, advance-covered count (record c { completed = insert_index i c.completed }) k)
settle_chunk-covered count i (some e) c k = ground arith

-- A result covers its own chunk if it has no error, and leaves the others.
pub collect-covered :
    (count : ℕ) (due : Bool) (chunk : Chunk) (outcome : Outcome) (c : Collector) (k : ℕ)
    → covered (collect count due chunk outcome c) k
      ≡ ((not (is_some (error_of chunk outcome)) && chunk.index == k) || covered c k)
unfolding collect
collect-covered count due chunk outcome c k =
    rw
      (
        settle_chunk-covered count chunk.index (error_of chunk outcome)
            (acknowledge due (written_of chunk outcome) c) k,
        acknowledge-covered due (written_of chunk outcome) c k,
      )
      refl

pub whole-written :
    (chunk : Chunk) (outcome : Outcome)
    → is_some (error_of chunk outcome) ≡ false
    → written_of chunk outcome ≡ chunk.size
whole-written chunk (unread e) h = absurd (ground arith)
whole-written chunk (returned n true) h = absurd (ground arith)
whole-written chunk (returned n false) h = ground arith

module _ (local original : ℕ → ℕ) (start total : ℕ) where
  -- Every covered chunk has been written, and nothing before the start.
  pub record Copied (t : Transfer) : Type 0 where
    pub written :
        (i p : ℕ)
        → covered t.collector i ≡ true
        → start + i * upload_packet_size ≤ p
        → p < start + (i + 1) * upload_packet_size
        → p < total
        → t.remote p ≡ local p
    pub kept : (p : ℕ) → p < start → t.remote p ≡ original p

  new-written :
      (i k p : ℕ) (due : Bool) (outcome : Outcome) (t : Transfer)
      → let chunk : Chunk = nth_chunk start total i in
        covered (collect (chunk_count (total - start)) due chunk outcome t.collector) k ≡ true
        → covered t.collector k ≡ false
        → start + k * upload_packet_size ≤ p
        → p < start + (k + 1) * upload_packet_size
        → p < total
        → write_at local
            (start + i * upload_packet_size)
            (written_of (nth_chunk start total i) outcome)
            t.remote
            p
          ≡ local p
  new-written i k p due outcome t cov new lo hi lt =
      let chunk : Chunk = nth_chunk start total i in
      let known = collect-covered (chunk_count (total - start)) due chunk outcome t.collector k in
      let ok_result : (not (is_some (error_of chunk outcome)) && i == k) ≡ true =
        ground (arith, known) in
      let parts = &&_true (not (is_some (error_of chunk outcome))) (i == k) ok_result in
      let all = whole-written chunk outcome (ground (arith, parts.0)) in
      let same : i ≡ k = ground (arith, parts.1) in ground (arith, all)

  finished_chunk-Copied :
      (i : ℕ) (due : Bool) (outcome : Outcome) (t : Transfer)
      → Copied t
      → Copied (finished_chunk local start total i due outcome t)
  finished_chunk-Copied i due outcome t h =
      let chunk : Chunk = nth_chunk start total i in
      record {
        written = λ k p cov lo hi lt. elim (Bool-cases (covered t.collector k)) [
          | inl old ↦ ground (arith, h.written k p old lo hi lt)
          | inr new ↦ new-written i k p due outcome t cov new lo hi lt
        ];
        kept = λ p lt. ground (arith, h.kept p lt);
      }

  step-Copied : (e : Event) (t : Transfer) → Copied t → Copied (step_transfer local start total e t)
  unfolding step_transfer
  step-Copied dispatch t h =
      if-rule Copied (can_dispatch local start total t) (hand_out t) t
        (λ b. record { written = h.written; kept = h.kept }) (λ b. h)
  step-Copied (result i due outcome) t h =
      if-rule Copied (t.in_flight i) (finished_chunk local start total i due outcome t) t
        (λ b. finished_chunk-Copied i due outcome t h) (λ b. h)
  step-Copied (give_up i) t h =
      if-rule Copied (t.cancelled && t.in_flight i) (drop_chunk i t) t
        (λ b. record { written = h.written; kept = h.kept }) (λ b. h)
  step-Copied cancel t h = record { written = h.written; kept = h.kept }

  run-Copied :
      (es : List Event) (t : Transfer) → Copied t → Copied (run_transfer local start total es t)
  unfolding run_transfer
  run-Copied [] t h = h
  run-Copied (e ∷ es) t h = run-Copied es (step_transfer local start total e t) (step-Copied e t h)

  -- In whatever order the chunks are read, written, fail or are given up, at every moment the remote
  -- file agrees with the local one from the start offset to the safe offset, and is unchanged before.
  pub run-prefix :
      (es : List Event) (concurrency p : ℕ)
      → let t =
          run_transfer local start total es (new_transfer (total - start) concurrency original) in
        (p < start → t.remote p ≡ original p)
        × (start ≤ p → p < start + safe_bytes local start total t.collector → t.remote p ≡ local p)
  run-prefix es concurrency p =
      let t : Transfer =
        run_transfer local start total es (new_transfer (total - start) concurrency original) in
      let h : Copied t =
        run-Copied es (new_transfer (total - start) concurrency original)
          (record { written = λ i q c lo hi lt. absurd (ground arith); kept = λ q lt. refl }) in
      let i = (p - start) / upload_packet_size in
      (
        h.kept p,
        λ lo hi.
            h.written i p (ground (arith, lt→ltb i t.collector.next_safe (omega arith)))
              (omega arith) (omega arith) (omega arith),
      )
