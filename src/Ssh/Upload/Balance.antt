-- ===== src/Ssh/Upload/Balance.antt =====
-- The reported, pending and acknowledged bytes of the collector.
use lab_remote_go.Common.{
  ℕ, zero, suc, ◌+◌, ◌≡◌, refl, Bool, ◌||◌, List, [], ◌∷◌, ◌++◌, Option, none, some, leb, ◌==◌,
  arith, if-rule,
}
use lab_remote_go.Ssh.Upload.{
  Chunk, TransferError, Outcome, error_of, written_of, Collector, flush_progress, acknowledge,
  insert_index, delete_index, advance, settle_chunk, collect, Report, gained, lost, progress_batch,
}

-- What the reports add, and what they take back.
abbrev pub gained_sum : List Report → ℕ
gained_sum [] = 0
gained_sum (gained n ∷ rs) = n + gained_sum rs
gained_sum (lost n ∷ rs) = gained_sum rs

abbrev pub lost_sum : List Report → ℕ
lost_sum [] = 0
lost_sum (gained n ∷ rs) = lost_sum rs
lost_sum (lost n ∷ rs) = n + lost_sum rs

pub gained_sum-append :
    (xs ys : List Report) → gained_sum (xs ++ ys) ≡ gained_sum xs + gained_sum ys
gained_sum-append [] ys = omega arith
gained_sum-append (gained n ∷ xs) ys = omega (arith, gained_sum-append xs ys)
gained_sum-append (lost n ∷ xs) ys = gained_sum-append xs ys

pub lost_sum-append : (xs ys : List Report) → lost_sum (xs ++ ys) ≡ lost_sum xs + lost_sum ys
lost_sum-append [] ys = omega arith
lost_sum-append (gained n ∷ xs) ys = lost_sum-append xs ys
lost_sum-append (lost n ∷ xs) ys = omega (arith, lost_sum-append xs ys)

-- Reported and pending bytes are the acknowledged ones, and nothing is taken back in the loop.
pub record Balanced (c : Collector) : Type 0 where
  pub balance : gained_sum c.reports + c.pending ≡ c.acknowledged
  pub no_loss : lost_sum c.reports ≡ 0

pub flush_progress-Balanced : (c : Collector) → Balanced c → Balanced (flush_progress c)
unfolding flush_progress
flush_progress-Balanced c h = record {
  balance = ground (arith, h.balance, gained_sum-append c.reports (gained c.pending ∷ []));
  no_loss = ground (arith, h.no_loss, lost_sum-append c.reports (gained c.pending ∷ []));
}

acknowledge-Balanced :
    (due : Bool) (n : ℕ) (c : Collector) → Balanced c → Balanced (acknowledge due n c)
unfolding acknowledge
acknowledge-Balanced due n c h =
    let c' : Collector = record c { acknowledged = c.acknowledged + n; pending = c.pending + n } in
    let h' : Balanced c' = record { balance = omega (arith, h.balance); no_loss = h.no_loss } in
    if-rule Balanced (n == 0) c _ (λ b. h)
      (λ b.
        if-rule Balanced (leb progress_batch c'.pending || due) (flush_progress c') c'
          (λ b. flush_progress-Balanced c' h') (λ b. h'))

acknowledge-acknowledged :
    (due : Bool) (n : ℕ) (c : Collector) → (acknowledge due n c).acknowledged ≡ c.acknowledged + n
unfolding acknowledge flush_progress
acknowledge-acknowledged due n c = ground arith

-- The inner loop changes neither.
record SameBytes (c c' : Collector) : Type 0 where
  acknowledged : c'.acknowledged ≡ c.acknowledged
  pending : c'.pending ≡ c.pending
  reports : c'.reports ≡ c.reports

advance-SameBytes : (fuel : ℕ) (c : Collector) → SameBytes c (advance fuel c)
unfolding advance
advance-SameBytes zero c = record { acknowledged = refl; pending = refl; reports = refl }
advance-SameBytes (suc fuel) c =
    let c' : Collector = record c {
      completed = delete_index c.next_safe c.completed;
      next_safe = c.next_safe + 1;
    } in
    let h = advance-SameBytes fuel c' in
    if-rule (λ r. SameBytes c r) (c.completed c.next_safe) (advance fuel c') c
      (λ b. record { acknowledged = h.acknowledged; pending = h.pending; reports = h.reports })
      (λ b. record { acknowledged = refl; pending = refl; reports = refl })

settle_chunk-SameBytes :
    (count i : ℕ) (e : Option TransferError) (c : Collector)
    → SameBytes c (settle_chunk count i e c)
settle_chunk-SameBytes count i (some e) c = record {
  acknowledged = refl;
  pending = refl;
  reports = refl;
}
settle_chunk-SameBytes count i none c =
    let h = advance-SameBytes count (record c { completed = insert_index i c.completed }) in
    record { acknowledged = h.acknowledged; pending = h.pending; reports = h.reports }

pub collect-Balanced :
    (count : ℕ) (due : Bool) (chunk : Chunk) (outcome : Outcome) (c : Collector)
    → Balanced c
    → Balanced (collect count due chunk outcome c)
unfolding collect
collect-Balanced count due chunk outcome c h =
    let c' = acknowledge due (written_of chunk outcome) c in
    let b = acknowledge-Balanced due (written_of chunk outcome) c h in
    let s = settle_chunk-SameBytes count chunk.index (error_of chunk outcome) c' in
    record {
      balance = rw (s.acknowledged, s.pending, s.reports) b.balance;
      no_loss = rw (s.reports) b.no_loss;
    }

pub collect-acknowledged :
    (count : ℕ) (due : Bool) (chunk : Chunk) (outcome : Outcome) (c : Collector)
    → (collect count due chunk outcome c).acknowledged ≡ c.acknowledged + written_of chunk outcome
unfolding collect
collect-acknowledged count due chunk outcome c =
    let c' = acknowledge due (written_of chunk outcome) c in
    ground (
      arith,
      acknowledge-acknowledged due (written_of chunk outcome) c,
      (settle_chunk-SameBytes count chunk.index (error_of chunk outcome) c').acknowledged,
    )

pub flush_progress-flushed : (c : Collector) → (flush_progress c).pending ≡ 0
unfolding flush_progress
flush_progress-flushed c = ground arith

pub flush_progress-kept :
    (c : Collector)
    → ((flush_progress c).next_safe ≡ c.next_safe)
      × ((flush_progress c).acknowledged ≡ c.acknowledged)
unfolding flush_progress
flush_progress-kept c = (ground arith, ground arith)
