-- ===== src/Ssh/Upload/Progress.antt =====
-- The deltas that are reported add up to the safe bytes.
use lab_remote_go.Common.{
  ℕ, zero, suc, ◌+◌, ◌-◌, ◌*◌, ◌≤◌, ◌<◌, min, ◌≡◌, refl, ap, lt→ltb, Bool, true, ◌&&◌, List, [],
  ◌∷◌, if◌then◌else◌, ltb, ◌==◌, arith, if-rule,
}
use native.Mathlib.Nat.{suc-add}
use lab_remote_go.Ssh.Upload.{
  upload_packet_size, chunk_count, Chunk, nth_chunk, Outcome, written_of, Collector, new_collector,
  flush_progress, collect, Transfer, new_transfer, Event, dispatch, result, give_up, lost, cancel,
  step_transfer, run_transfer, finished_chunk, can_dispatch, hand_out, drop_chunk, safe_bytes,
  correction, conclude,
}
use lab_remote_go.Ssh.Upload.Prefix.{covered, collect-covered, whole-written}
use lab_remote_go.Ssh.Upload.Tracking.{Tracked, run-Tracked, new_transfer-Tracked}
use lab_remote_go.Ssh.Upload.Balance.{
  gained_sum, lost_sum, gained_sum-append, lost_sum-append, Balanced, flush_progress-Balanced,
  collect-Balanced, collect-acknowledged, flush_progress-flushed, flush_progress-kept,
}

abbrev sum_to : ℕ → (ℕ → ℕ) → ℕ
sum_to zero f = 0
sum_to (suc n) f = sum_to n f + f n

-- One entry grows, by at most `d`.
sum_to-grow :
    (n k d : ℕ) (f g : ℕ → ℕ)
    → ((i : ℕ) → g i ≤ f i + (if k == i then d else 0))
    → sum_to n g ≤ sum_to n f + (if ltb k n then d else 0)
sum_to-grow zero k d f g h = ground arith
sum_to-grow (suc n) k d f g h = ground (arith, sum_to-grow n k d f g h, h n)

sum_to-extend : (m n : ℕ) (f : ℕ → ℕ) → sum_to n f ≤ sum_to (m + n) f
sum_to-extend zero n f = ground arith
sum_to-extend (suc m) n f = rw suc-add (omega (arith, sum_to-extend m n f))

module _ (local : ℕ → ℕ) (start total : ℕ) where
  abbrev weight : Collector → ℕ → ℕ
  weight c i = if covered c i then (nth_chunk start total i).size else 0

  -- The first chunks, all covered, weigh what they cover of the file.
  sum_to-weight :
      (n : ℕ) (c : Collector)
      → ((i : ℕ) → i < n → covered c i ≡ true)
      → min (total - start) (n * upload_packet_size) ≤ sum_to n (weight c)
  sum_to-weight zero c h = omega arith
  sum_to-weight (suc n) c h =
      let before = sum_to-weight n c (λ i lt. h i (omega arith)) in
      rw (h n (omega arith)) (omega (arith, before))

  sum_to-nothing : (n : ℕ) → sum_to n (weight new_collector) ≡ 0
  sum_to-nothing zero = refl
  sum_to-nothing (suc n) = ground (arith, sum_to-nothing n)

  -- The acknowledged bytes are no fewer than the covered ones.
  record Paid (t : Transfer) : Type 0 where
    balanced : Balanced t.collector
    paid : sum_to (chunk_count (total - start)) (weight t.collector) ≤ t.collector.acknowledged

  finished_chunk-Paid :
      (i : ℕ) (due : Bool) (outcome : Outcome) (t : Transfer)
      → Paid t
      → Paid (finished_chunk local start total i due outcome t)
  finished_chunk-Paid i due outcome t h =
      let chunk : Chunk = nth_chunk start total i in
      let n = chunk_count (total - start) in
      let c' : Collector = collect n due chunk outcome t.collector in
      record {
        balanced = collect-Balanced n due chunk outcome t.collector h.balanced;
        paid = ground (
          arith,
          h.paid,
          collect-acknowledged n due chunk outcome t.collector,
          sum_to-grow n i (written_of chunk outcome) (weight t.collector) (weight c') (λ k. ground (
            arith,
            collect-covered n due chunk outcome t.collector k,
            whole-written chunk outcome,
          )),
        );
      }

  step-Paid : (e : Event) (t : Transfer) → Paid t → Paid (step_transfer local start total e t)
  unfolding step_transfer
  step-Paid dispatch t h =
      if-rule Paid (can_dispatch local start total t) (hand_out t) t
        (λ b. record { balanced = h.balanced; paid = h.paid }) (λ b. h)
  step-Paid (result i due outcome) t h =
      if-rule Paid (t.in_flight i) (finished_chunk local start total i due outcome t) t
        (λ b. finished_chunk-Paid i due outcome t h) (λ b. h)
  step-Paid (give_up i) t h =
      if-rule Paid (t.cancelled && t.in_flight i) (drop_chunk i t) t
        (λ b. record { balanced = h.balanced; paid = h.paid }) (λ b. h)
  step-Paid cancel t h = record { balanced = h.balanced; paid = h.paid }

  run-Paid : (es : List Event) (t : Transfer) → Paid t → Paid (run_transfer local start total es t)
  unfolding run_transfer
  run-Paid [] t h = h
  run-Paid (e ∷ es) t h = run-Paid es (step_transfer local start total e t) (step-Paid e t h)

  safe-acknowledged :
      (t : Transfer)
      → Tracked local start total t
      → Paid t
      → safe_bytes local start total t.collector ≤ t.collector.acknowledged
  safe-acknowledged t k h =
      let n = t.collector.next_safe in
      let count = chunk_count (total - start) in
      let reach : n ≤ count = ground (arith, k.settled (n - 1), k.bounded, lt→ltb (n - 1) n) in
      let same : count - n + n ≡ count = omega arith in
      let part = sum_to-weight n t.collector (λ i lt. ground (arith, lt→ltb i n lt)) in
      let whole = sum_to-extend (count - n) n (weight t.collector) in
      ground (arith, h.paid, part, whole, ap (λ q. sum_to q (weight t.collector)) same)

  correction-sum :
      (safe : ℕ) (c : Collector)
      → Balanced c
      → c.pending ≡ 0
      → safe ≤ c.acknowledged
      → gained_sum (correction safe c).reports ≡ safe + lost_sum (correction safe c).reports
  correction-sum safe c h flushed le = ground (
    arith,
    h.balance,
    h.no_loss,
    gained_sum-append c.reports (lost (c.acknowledged - safe) ∷ []),
    lost_sum-append c.reports (lost (c.acknowledged - safe) ∷ []),
  )

  -- The deltas that a call of the upload reports, the last correction included, add up to the bytes
  -- that it returns as safe, whichever chunks succeed, fail in part or are given up.
  pub conclude-reports :
      (es : List Event) (concurrency : ℕ) (original : ℕ → ℕ)
      → let t =
          run_transfer local start total es (new_transfer (total - start) concurrency original) in
        let (c, safe, verdict) = conclude local start total t in
        gained_sum c.reports ≡ safe + lost_sum c.reports
  unfolding conclude
  conclude-reports es concurrency original =
      let t0 : Transfer = new_transfer (total - start) concurrency original in
      let t : Transfer = run_transfer local start total es t0 in
      let h : Paid t = run-Paid es t0 (record {
        balanced = record { balance = refl; no_loss = refl };
        paid = omega (arith, sum_to-nothing (chunk_count (total - start)));
      }) in
      let k =
        run-Tracked local start total es t0
          (new_transfer-Tracked local start total concurrency original) in
      let f = flush_progress-Balanced t.collector h.balanced in
      let bound = safe-acknowledged t k h in
      correction-sum (safe_bytes local start total (flush_progress t.collector))
        (flush_progress t.collector) f (flush_progress-flushed t.collector)
        (ground (arith, bound, flush_progress-kept t.collector))
