-- ===== src/Ssh/Upload/Success.antt =====
-- An upload in which nothing fails is complete, and one that reports success is.
use lab_remote_go.Common.{
  ℕ, ◌-◌, ◌≤◌, ◌<◌, ◌≡◌, refl, Bool, true, false, ◌&&◌, List, [], ◌∷◌, Option, none, some, arith,
  if-rule, ◌==◌,
}
use lab_remote_go.Common.Results.{Result, ok}
use lab_remote_go.Ssh.Upload.{
  chunk_count, nth_chunk, new_collector, TransferError, Outcome, error_of, Collector, Transfer,
  new_transfer, is_some, Event, dispatch, result, give_up, cancel, step_transfer, run_transfer,
  finished_chunk, flush_progress, safe_bytes, verdict, conclude, write_upload_file, can_dispatch,
  hand_out, drop_chunk,
}
use lab_remote_go.Ssh.Upload.Prefix.{run-prefix}
use lab_remote_go.Ssh.Upload.Tracking.{
  Tracked, run-Tracked, new_transfer-Tracked, collect-first_err,
}

flush_progress-next_safe : (c : Collector) → (flush_progress c).next_safe ≡ c.next_safe
unfolding flush_progress
flush_progress-next_safe c = ground arith

flush_progress-first_err : (c : Collector) → (flush_progress c).first_err ≡ c.first_err
unfolding flush_progress
flush_progress-first_err c = ground arith

module _ (local original : ℕ → ℕ) (start total concurrency : ℕ) where
  abbrev first_transfer : Transfer
  first_transfer = new_transfer (total - start) concurrency original

  -- No chunk of the run fails, and the caller does not cancel.
  abbrev pub Clean : List Event → Type 0
  Clean [] = Unit {0}
  Clean (dispatch ∷ es) = Clean es
  Clean (result i due outcome ∷ es) =
      (is_some (error_of (nth_chunk start total i) outcome) ≡ false) × Clean es
  Clean (give_up i ∷ es) = Clean es
  Clean (cancel ∷ es) = ⊥

  -- nothing has failed
  record Fine (t : Transfer) : Type 0 where
    quiet : t.cancelled ≡ false
    going_on : t.ctx_done ≡ false
    no_error : is_some t.collector.first_err ≡ false

  dispatch-Fine : (t : Transfer) → Fine t → Fine (step_transfer local start total dispatch t)
  unfolding step_transfer
  dispatch-Fine t h =
      if-rule Fine (can_dispatch local start total t) (hand_out t) t
        (λ b. record { quiet = h.quiet; going_on = h.going_on; no_error = h.no_error }) (λ b. h)

  give_up-Fine :
      (i : ℕ) (t : Transfer) → Fine t → Fine (step_transfer local start total (give_up i) t)
  unfolding step_transfer
  give_up-Fine i t h =
      if-rule Fine (t.cancelled && t.in_flight i) (drop_chunk i t) t
        (λ b. record { quiet = h.quiet; going_on = h.going_on; no_error = h.no_error }) (λ b. h)

  result-Fine :
      (i : ℕ) (due : Bool) (outcome : Outcome) (t : Transfer)
      → is_some (error_of (nth_chunk start total i) outcome) ≡ false
      → Fine t
      → Fine (step_transfer local start total (result i due outcome) t)
  unfolding step_transfer
  result-Fine i due outcome t good h =
      if-rule Fine (t.in_flight i) (finished_chunk local start total i due outcome t) t
        (λ b. record {
          quiet = ground (arith, h.quiet);
          going_on = h.going_on;
          no_error = ground (
            arith,
            h.no_error,
            collect-first_err (chunk_count (total - start)) due (nth_chunk start total i) outcome
                t.collector,
          );
        })
        (λ b. h)

  run-Fine :
      (es : List Event) (t : Transfer)
      → Clean es
      → Fine t
      → Fine (run_transfer local start total es t)
  unfolding run_transfer
  run-Fine [] t c h = h
  run-Fine (dispatch ∷ es) t c h =
      run-Fine es (step_transfer local start total dispatch t) c (dispatch-Fine t h)
  run-Fine (result i due outcome ∷ es) t c h =
      run-Fine es (step_transfer local start total (result i due outcome) t) c.1
        (result-Fine i due outcome t c.0 h)
  run-Fine (give_up i ∷ es) t c h =
      run-Fine es (step_transfer local start total (give_up i) t) c (give_up-Fine i t h)
  run-Fine (cancel ∷ es) t c h = absurd c

  -- When every chunk was handed out and none is in flight, all of them are safe.
  all_safe :
      (t : Transfer)
      → Tracked local start total t
      → t.cancelled ≡ false
      → t.dispatched ≡ chunk_count (total - start)
      → ((i : ℕ) → t.in_flight i ≡ false)
      → chunk_count (total - start) ≤ t.collector.next_safe
  all_safe t h quiet all idle =
      ground (arith, h.none_lost t.collector.next_safe, idle t.collector.next_safe, h.drained)

  verdict-ok :
      (safe : ℕ) (e : Option TransferError) (ctx_done : Bool)
      → verdict local start total safe e ctx_done ≡ ok tt
      → safe ≡ total - start
  verdict-ok safe (some e) ctx_done h = absurd (cc)
  verdict-ok safe none true h = absurd (cc)
  verdict-ok safe none false h = ground arith

  verdict-Fine :
      (safe : ℕ) (e : Option TransferError) (ctx_done : Bool)
      → is_some e ≡ false
      → ctx_done ≡ false
      → safe ≡ total - start
      → verdict local start total safe e ctx_done ≡ ok tt
  verdict-Fine safe (some e) ctx_done h g q = absurd (cc)
  verdict-Fine safe none true h g q = absurd (cc)
  verdict-Fine safe none false h g q = ground arith

  -- Once all bytes are safe, the prefix is the whole rest of the file.
  all_copied :
      (es : List Event)
      → let t = run_transfer local start total es first_transfer in
        safe_bytes local start total t.collector ≡ total - start
        → (p : ℕ) → start ≤ p
        → p < total
        → t.remote p ≡ local p
  all_copied es e p lo hi =
      (run-prefix local original start total es concurrency p).1 lo (omega arith)

  -- A run in which no chunk fails and the caller does not cancel, that has handed out all chunks and
  -- waited for all workers, returns the number of bytes to send and no error, and the remote file is the
  -- local one from the start offset on.
  pub conclude-Clean :
      (es : List Event)
      → start < total
      → Clean es
      → let t =
          run_transfer local start total es (new_transfer (total - start) concurrency original) in
        t.dispatched ≡ chunk_count (total - start)
        → ((i : ℕ) → t.in_flight i ≡ false)
        → ((conclude local start total t).1 ≡ total - start)
          × ((conclude local start total t).2 ≡ ok tt)
          × ((p : ℕ) → start ≤ p → p < total → t.remote p ≡ local p)
  unfolding conclude
  conclude-Clean es lt clean all idle =
      let t : Transfer = run_transfer local start total es first_transfer in
      let c : Collector = flush_progress t.collector in
      let fine : Fine t =
        run-Fine es first_transfer clean
          (record { quiet = refl; going_on = refl; no_error = refl }) in
      let h : Tracked local start total t =
        run-Tracked local start total es first_transfer
          (new_transfer-Tracked local start total concurrency original) in
      let reached = all_safe t h fine.quiet all idle in
      let safe : safe_bytes local start total c ≡ total - start =
        ground (arith, flush_progress-next_safe t.collector) in
      (
        safe,
        verdict-Fine (safe_bytes local start total c) c.first_err t.ctx_done
            (ground (arith, flush_progress-first_err t.collector, fine.no_error)) fine.going_on
            safe,
        all_copied es (ground arith),
      )

  conclude-ok :
      (es : List Event)
      → let t =
          run_transfer local start total es (new_transfer (total - start) concurrency original) in
        (conclude local start total t).2 ≡ ok tt
        → ((conclude local start total t).1 ≡ total - start)
          × ((p : ℕ) → start ≤ p → p < total → t.remote p ≡ local p)
  unfolding conclude
  conclude-ok es e =
      let t : Transfer = run_transfer local start total es first_transfer in
      let c : Collector = flush_progress t.collector in
      let safe : safe_bytes local start total c ≡ total - start =
        verdict-ok (safe_bytes local start total c) c.first_err t.ctx_done e in
      (safe, all_copied es (ground (arith, flush_progress-next_safe t.collector)))

  -- Whatever happens to the chunks, if no error is returned, all the bytes that were left are counted,
  -- and the remote file is the local one from the start offset on.
  pub write_upload_file-ok :
      (es : List Event)
      → let out = write_upload_file local start total concurrency original es in
        out.0.2 ≡ ok tt
        → (out.0.1 ≡ total - start) × ((p : ℕ) → start ≤ p → p < total → out.1 p ≡ local p)
  unfolding write_upload_file
  write_upload_file-ok es e =
      let t : Transfer = run_transfer local start total es first_transfer in
      if-rule {A = (Collector × ℕ × Result TransferError (Unit {0})) × (ℕ → ℕ)}
        (λ out.
          out.0.2 ≡ ok tt
          → (out.0.1 ≡ total - start) × ((p : ℕ) → start ≤ p → p < total → out.1 p ≡ local p))
        (total - start == 0) ((new_collector, 0, ok tt), original)
        (conclude local start total t, t.remote)
        (λ nothing q. (ground arith, λ p lo hi. absurd (ground arith))) (λ more q. conclude-ok es q)
        e
