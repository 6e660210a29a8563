-- ===== src/Ssh/Upload/Tracking.antt =====
-- Where each chunk is: not yet handed out, in flight, or covered.
use lab_remote_go.Common.{
  ℕ, zero, suc, ◌+◌, ◌-◌, ◌≤◌, ◌<◌, ◌≡◌, refl, sym, ◌∙◌, Bool, true, false, not, ◌&&◌, ◌||◌, List,
  [], ◌∷◌, Option, none, some, ◌==◌, arith, Bool-cases, inl, inr, if-rule,
}
use lab_remote_go.Ssh.Upload.{
  chunk_count, Chunk, nth_chunk, TransferError, Outcome, error_of, written_of, Collector,
  flush_progress, acknowledge, insert_index, delete_index, advance, settle_chunk, collect, Transfer,
  new_transfer, is_some, Event, dispatch, result, give_up, cancel, step_transfer, run_transfer,
  finished_chunk, can_dispatch, hand_out, drop_chunk,
}
use lab_remote_go.Ssh.Upload.Prefix.{covered, collect-covered, acknowledge-covered}

advance-first_err : (fuel : ℕ) (c : Collector) → (advance fuel c).first_err ≡ c.first_err
unfolding advance
advance-first_err zero c = refl
advance-first_err (suc fuel) c =
    let c' : Collector = record c {
      completed = delete_index c.next_safe c.completed;
      next_safe = c.next_safe + 1;
    } in
    ground (arith, advance-first_err fuel c')

acknowledge-first_err :
    (due : Bool) (n : ℕ) (c : Collector) → (acknowledge due n c).first_err ≡ c.first_err
unfolding acknowledge flush_progress
acknowledge-first_err due n c = ground arith

-- An error of the chunk, or an earlier one, is kept.
pub collect-first_err :
    (count : ℕ) (due : Bool) (chunk : Chunk) (outcome : Outcome) (c : Collector)
    → is_some (collect count due chunk outcome c).first_err
      ≡ (is_some c.first_err || is_some (error_of chunk outcome))
unfolding collect
collect-first_err count due chunk outcome c =
    let c' = acknowledge due (written_of chunk outcome) c in
    ground (
      arith,
      acknowledge-first_err due (written_of chunk outcome) c,
      advance-first_err count (record c' { completed = insert_index chunk.index c'.completed }),
    )

-- Fuel for the chunks that are left is enough for the inner loop.
advance-drained :
    (fuel : ℕ) (c : Collector)
    → ((i : ℕ) → c.completed i ≡ true → i < fuel + c.next_safe)
    → (advance fuel c).completed (advance fuel c).next_safe ≡ false
unfolding advance
advance-drained zero c h = elim (Bool-cases (c.completed c.next_safe)) [
  | inl more ↦ absurd (omega (arith, h c.next_safe more))
  | inr done ↦ done
]
advance-drained (suc fuel) c h =
    let c' : Collector = record c {
      completed = delete_index c.next_safe c.completed;
      next_safe = c.next_safe + 1;
    } in
    elim (Bool-cases (c.completed c.next_safe)) [
      | inr done ↦ rw (done, done) refl
      | inl more ↦ rw more (advance-drained fuel c' (λ i e. ground (arith, h i)))
    ]

acknowledge-drained :
    (due : Bool) (n : ℕ) (c : Collector)
    → c.completed c.next_safe ≡ false
    → (acknowledge due n c).completed (acknowledge due n c).next_safe ≡ false
unfolding acknowledge flush_progress
acknowledge-drained due n c h = ground arith

settle_chunk-drained :
    (count i : ℕ) (e : Option TransferError) (c : Collector)
    → ((k : ℕ) → covered c k ≡ true → k < count)
    → i < count
    → c.completed c.next_safe ≡ false
    → let c' = settle_chunk count i e c in c'.completed c'.next_safe ≡ false
settle_chunk-drained count i (some e) c below lt h = h
settle_chunk-drained count i none c below lt h =
    advance-drained count (record c { completed = insert_index i c.completed })
      (λ k e. ground (arith, below k))

collect-drained :
    (count : ℕ) (due : Bool) (chunk : Chunk) (outcome : Outcome) (c : Collector)
    → ((i : ℕ) → covered c i ≡ true → i < count)
    → chunk.index < count
    → c.completed c.next_safe ≡ false
    → let c' = collect count due chunk outcome c in c'.completed c'.next_safe ≡ false
unfolding collect
collect-drained count due chunk outcome c below lt h =
    let c' = acknowledge due (written_of chunk outcome) c in
    settle_chunk-drained count chunk.index (error_of chunk outcome) c'
      (λ k e. below k (sym (acknowledge-covered due (written_of chunk outcome) c k) ∙ e)) lt
      (acknowledge-drained due (written_of chunk outcome) c h)

module _ (local : ℕ → ℕ) (start total : ℕ) where
  abbrev count : ℕ
  count = chunk_count (total - start)

  pub record Tracked (t : Transfer) : Type 0 where
    pub bounded : t.dispatched ≤ chunk_count (total - start)
    pub flying : (i : ℕ) → t.in_flight i ≡ true → i < t.dispatched
    pub settled : (i : ℕ) → covered t.collector i ≡ true → i < t.dispatched
    pub apart : (i : ℕ) → t.in_flight i ≡ true → covered t.collector i ≡ false
    pub drained : t.collector.completed t.collector.next_safe ≡ false
    pub why : t.cancelled ≡ (t.ctx_done || is_some t.collector.first_err)
    pub none_lost :
        (i : ℕ)
        → t.cancelled ≡ false
        → i < t.dispatched
        → (t.in_flight i || covered t.collector i) ≡ true

  hand_out-Tracked :
      (t : Transfer) → can_dispatch local start total t ≡ true → Tracked t → Tracked (hand_out t)
  hand_out-Tracked t b h = record {
    bounded = ground arith;
    flying = λ i e. ground (arith, h.flying i);
    settled = λ i e. ground (arith, h.settled i);
    apart = λ i e. ground (arith, h.apart i, h.settled i);
    drained = h.drained;
    why = h.why;
    none_lost = λ i c lt. ground (arith, h.none_lost i);
  }

  drop_chunk-Tracked :
      (i : ℕ) (t : Transfer)
      → (t.cancelled && t.in_flight i) ≡ true
      → Tracked t
      → Tracked (drop_chunk i t)
  drop_chunk-Tracked i t b h = record {
    bounded = h.bounded;
    flying = λ k e. ground (arith, h.flying k);
    settled = h.settled;
    apart = λ k e. ground (arith, h.apart k);
    drained = h.drained;
    why = h.why;
    none_lost = λ k c lt. ground arith;
  }

  finished_chunk-Tracked :
      (i : ℕ) (due : Bool) (outcome : Outcome) (t : Transfer)
      → t.in_flight i ≡ true
      → Tracked t
      → Tracked (finished_chunk local start total i due outcome t)
  finished_chunk-Tracked i due outcome t b h =
      let chunk : Chunk = nth_chunk start total i in
      let now : (k : ℕ)
          → covered (collect count due chunk outcome t.collector) k
            ≡ ((not (is_some (error_of chunk outcome)) && i == k) || covered t.collector k) =
        λ k. collect-covered count due chunk outcome t.collector k in
      record {
        bounded = h.bounded;
        flying = λ k e. ground (arith, h.flying k);
        settled = λ k e. ground (arith, h.settled k, h.flying i, now k);
        apart = λ k e. ground (arith, h.apart k, now k);
        drained =
            collect-drained count due chunk outcome t.collector
              (λ k e. omega (arith, h.settled k e, h.bounded))
              (omega (arith, h.flying i b, h.bounded)) h.drained;
        why = ground (arith, collect-first_err count due chunk outcome t.collector, h.why);
        none_lost = λ k c lt. ground (arith, h.none_lost k, now k);
      }

  pub step-Tracked :
      (e : Event) (t : Transfer) → Tracked t → Tracked (step_transfer local start total e t)
  unfolding step_transfer
  step-Tracked dispatch t h =
      if-rule Tracked (can_dispatch local start total t) (hand_out t) t
        (λ b. hand_out-Tracked t b h) (λ b. h)
  step-Tracked (result i due outcome) t h =
      if-rule Tracked (t.in_flight i) (finished_chunk local start total i due outcome t) t
        (λ b. finished_chunk-Tracked i due outcome t b h) (λ b. h)
  step-Tracked (give_up i) t h =
      if-rule Tracked (t.cancelled && t.in_flight i) (drop_chunk i t) t
        (λ b. drop_chunk-Tracked i t b h) (λ b. h)
  step-Tracked cancel t h = record {
    bounded = h.bounded;
    flying = h.flying;
    settled = h.settled;
    apart = h.apart;
    drained = h.drained;
    why = refl;
    none_lost = λ i c lt. absurd (cc);
  }

  pub new_transfer-Tracked :
      (concurrency : ℕ) (original : ℕ → ℕ)
      → Tracked (new_transfer (total - start) concurrency original)
  new_transfer-Tracked concurrency original = record {
    bounded = omega arith;
    flying = λ i e. absurd (cc);
    settled = λ i e. absurd (ground arith);
    apart = λ i e. ground arith;
    drained = refl;
    why = refl;
    none_lost = λ i c lt. absurd (omega arith);
  }

  pub run-Tracked :
      (es : List Event) (t : Transfer) → Tracked t → Tracked (run_transfer local start total es t)
  unfolding run_transfer
  run-Tracked [] t h = h
  run-Tracked (e ∷ es) t h =
      run-Tracked es (step_transfer local start total e t) (step-Tracked e t h)
