-- ===== src/Ssh/Upload.antt =====
-- internal/sshclient/upload.go, `writeUploadFileWithConcurrency`: one file is cut into chunks that
-- workers write in any order. A file is a function from positions to bytes. A worker's read, write and
-- result are one step, taken when the collector receives the result: chunks do not overlap.
pub mod Prefix
pub mod Tracking
pub mod Budget
pub mod Balance
pub mod Progress
pub mod Success
pub mod Untouched
mod Tests
use lab_remote_go.Common.{
  ℕ, zero, suc, ◌+◌, ◌-◌, ◌*◌, ◌/◌, min, max, Bool, true, false, not, ◌&&◌, ◌||◌, List, [], ◌∷◌,
  ◌++◌, Option, none, some, if◌then◌else◌, ltb, leb, ◌==◌,
}
use lab_remote_go.Common.Results.{Result, err, ok}

abbrev pub upload_packet_size : ℕ
upload_packet_size = 32768

abbrev pub pipeline_budget : ℕ
pipeline_budget = 64

abbrev pub progress_batch : ℕ
progress_batch = 262144

abbrev pub chunk_count : ℕ → ℕ
chunk_count remaining = 1 + (remaining - 1) / upload_packet_size

-- `uploadRequestConcurrency`
unfoldable pub request_concurrency : ℕ → ℕ → ℕ
request_concurrency remaining parallel_files =
    let files = if ltb parallel_files 1 then 1 else parallel_files in
    let budget = max 1 (pipeline_budget / files) in
    if remaining == 0
    then 1
    else if leb budget (chunk_count remaining)
    then budget
    else chunk_count remaining

pub record Chunk : Type 0 where
  pub index : ℕ
  pub offset : ℕ
  pub size : ℕ

abbrev pub nth_chunk : ℕ → ℕ → ℕ → Chunk
nth_chunk start total i =
    let offset = start + i * upload_packet_size in
    record { index = i; offset = offset; size = min upload_packet_size (total - offset) }

pub data TransferError : Type 0 where
  read_error unexpected_eof short_write write_error context_error : TransferError

-- What happens to a chunk: the local read fails or is short, or `WriteAt` returns a count, with or
-- without an error.
pub data Outcome : Type 0 where
  unread : TransferError → Outcome
  returned : ℕ → Bool → Outcome

abbrev pub written_of : Chunk → Outcome → ℕ
written_of chunk (unread e) = 0
written_of chunk (returned n fails) = min n chunk.size

abbrev pub error_of : Chunk → Outcome → Option TransferError
error_of chunk (unread e) = some e
error_of chunk (returned n true) = some write_error
error_of chunk (returned n false) = if leb chunk.size n then none else some short_write

-- a call of `onBytes`, with a positive or a negative delta
pub data Report : Type 0 where
  gained lost : ℕ → Report

-- The locals of the loop over `results`.
pub record Collector : Type 0 where
  pub completed : ℕ → Bool
  pub next_safe : ℕ
  pub acknowledged : ℕ
  pub pending : ℕ
  pub reports : List Report
  pub first_err : Option TransferError

abbrev pub new_collector : Collector
new_collector = record {
  completed = λ i. false;
  next_safe = 0;
  acknowledged = 0;
  pending = 0;
  reports = [];
  first_err = none;
}

unfoldable pub flush_progress : Collector → Collector
flush_progress c =
    if c.pending == 0
    then c
    else record c { pending = 0; reports = c.reports ++ (gained c.pending ∷ []) }

-- `due` tells that 250 ms have passed since the last report.
unfoldable pub acknowledge : Bool → ℕ → Collector → Collector
acknowledge due written c =
    if written == 0
    then c
    else let c' : Collector = record c {
      acknowledged = c.acknowledged + written;
      pending = c.pending + written;
    } in
      if leb progress_batch c'.pending || due then flush_progress c' else c'

abbrev pub insert_index : ℕ → (ℕ → Bool) → ℕ → Bool
insert_index i s = λ k. i == k || s k

abbrev pub delete_index : ℕ → (ℕ → Bool) → ℕ → Bool
delete_index i s = λ k. not (i == k) && s k

-- The inner loop, on fuel: `nextSafeChunk` goes on while its chunk is completed.
unfoldable pub advance : ℕ → Collector → Collector
advance zero c = c
advance (suc fuel) c =
    let rest = advance fuel (record c {
      completed = delete_index c.next_safe c.completed;
      next_safe = c.next_safe + 1;
    }) in
    if c.completed c.next_safe then rest else c

abbrev pub first_error : Option TransferError → TransferError → Option TransferError
first_error none e = some e
first_error (some first) e = some first

-- `count` is `chunkCount`.
abbrev pub settle_chunk : ℕ → ℕ → Option TransferError → Collector → Collector
settle_chunk count i (some e) c = record c { first_err = first_error c.first_err e }
settle_chunk count i none c = advance count (record c { completed = insert_index i c.completed })

-- One round of the loop over `results`.
unfoldable pub collect : ℕ → Bool → Chunk → Outcome → Collector → Collector
collect count due chunk outcome c =
    settle_chunk count chunk.index (error_of chunk outcome)
      (acknowledge due (written_of chunk outcome) c)

-- `workers` counts the workers that still take chunks, `busy` those that have one; `dispatched` is the
-- dispatcher's index. `cancelled` is `transferContext`, `ctx_done` the caller's.
pub record Transfer : Type 0 where
  pub dispatched : ℕ
  pub in_flight : ℕ → Bool
  pub busy : ℕ
  pub workers : ℕ
  pub ctx_done : Bool
  pub cancelled : Bool
  pub remote : ℕ → ℕ
  pub collector : Collector

abbrev pub new_transfer : ℕ → ℕ → (ℕ → ℕ) → Transfer
new_transfer remaining concurrency remote = record {
  dispatched = 0;
  in_flight = λ i. false;
  busy = 0;
  workers = min (max 1 concurrency) (chunk_count remaining);
  ctx_done = false;
  cancelled = false;
  remote = remote;
  collector = new_collector;
}

-- `remoteFile.WriteAt`: `n` bytes of the local file, at the same position
abbrev pub write_at : (ℕ → ℕ) → ℕ → ℕ → (ℕ → ℕ) → ℕ → ℕ
write_at local offset n remote =
    λ p. if leb offset p && ltb p (offset + n) then local p else remote p

abbrev pub is_some : {A : Type 0} → Option A → Bool
is_some none = false
is_some (some a) = true

-- A chunk is handed out, a worker's result is collected, a worker that sees the cancellation gives its
-- chunk up, or the caller cancels.
pub data Event : Type 0 where
  dispatch : Event
  result : ℕ → Bool → Outcome → Event
  give_up : ℕ → Event
  cancel : Event

abbrev pub hand_out : Transfer → Transfer
hand_out t = record t {
  dispatched = t.dispatched + 1;
  in_flight = insert_index t.dispatched t.in_flight;
  busy = t.busy + 1;
}

-- The worker returns without a result.
abbrev pub drop_chunk : ℕ → Transfer → Transfer
drop_chunk i t = record t {
  in_flight = delete_index i t.in_flight;
  busy = t.busy - 1;
  workers = t.workers - 1;
}

abbrev pub correction : ℕ → Collector → Collector
correction safe c =
    if ltb safe c.acknowledged
    then record c { reports = c.reports ++ (lost (c.acknowledged - safe) ∷ []) }
    else c

module _ (local : ℕ → ℕ) (start total : ℕ) where
  abbrev pub finished_chunk : ℕ → Bool → Outcome → Transfer → Transfer
  finished_chunk i due outcome t =
      let chunk : Chunk = nth_chunk start total i in
      let c : Collector = collect (chunk_count (total - start)) due chunk outcome t.collector in
      record t {
        in_flight = delete_index i t.in_flight;
        busy = t.busy - 1;
        workers = if is_some (error_of chunk outcome) then t.workers - 1 else t.workers;
        cancelled = t.cancelled || is_some (error_of chunk outcome);
        remote = write_at local chunk.offset (written_of chunk outcome) t.remote;
        collector = c;
      }

  abbrev pub can_dispatch : Transfer → Bool
  can_dispatch t = ltb t.dispatched (chunk_count (total - start)) && ltb t.busy t.workers

  unfoldable pub step_transfer : Event → Transfer → Transfer
  step_transfer dispatch t = if can_dispatch t then hand_out t else t
  step_transfer (result i due outcome) t =
      if t.in_flight i then finished_chunk i due outcome t else t
  step_transfer (give_up i) t = if t.cancelled && t.in_flight i then drop_chunk i t else t
  step_transfer cancel t = record t { ctx_done = true; cancelled = true }

  unfoldable pub run_transfer : List Event → Transfer → Transfer
  run_transfer [] t = t
  run_transfer (e ∷ events) t = run_transfer events (step_transfer e t)

  abbrev pub safe_bytes : Collector → ℕ
  safe_bytes c = min (total - start) (c.next_safe * upload_packet_size)

  abbrev pub verdict : ℕ → Option TransferError → Bool → Result TransferError (Unit {0})
  verdict safe (some e) ctx_done = err e
  verdict safe none true = err context_error
  verdict safe none false = if safe == total - start then ok tt else err unexpected_eof

  -- After the loop: what the function returns, and the last reports.
  unfoldable pub conclude : Transfer → Collector × ℕ × Result TransferError (Unit {0})
  conclude t =
      let c : Collector = flush_progress t.collector in
      let safe = safe_bytes c in (correction safe c, safe, verdict safe c.first_err t.ctx_done)

  -- the whole function: what it returns, and the remote file
  unfoldable pub write_upload_file :
      ℕ → (ℕ → ℕ) → List Event → (Collector × ℕ × Result TransferError (Unit {0})) × (ℕ → ℕ)
  write_upload_file concurrency original events =
      let t = run_transfer events (new_transfer (total - start) concurrency original) in
      if total - start == 0 then ((new_collector, 0, ok tt), original) else (conclude t, t.remote)
