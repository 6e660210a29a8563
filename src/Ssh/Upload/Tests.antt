-- ===== src/Ssh/Upload/Tests.antt =====
-- Runs and witnesses for the upload of one file.
use lab_remote_go.Common.{
  ℕ, ◌+◌, ◌-◌, ◌≤◌, ◌<◌, ◌*◌, ◌≡◌, ◌⊎◌, refl, true, false, List, [], ◌∷◌, arith,
}
use lab_remote_go.Common.Results.{ok}
use lab_remote_go.Ssh.Upload.{
  Event, dispatch, result, returned, gained, lost, new_transfer, run_transfer, step_transfer,
  conclude, write_upload_file, collect, acknowledge, flush_progress, advance, request_concurrency,
  safe_bytes, upload_packet_size, pipeline_budget,
}
use lab_remote_go.Ssh.Upload.Prefix.{run-prefix}
use lab_remote_go.Ssh.Upload.Balance.{gained_sum, lost_sum}
use lab_remote_go.Ssh.Upload.Progress.{conclude-reports}
use lab_remote_go.Ssh.Upload.Success.{conclude-Clean, write_upload_file-ok}
use lab_remote_go.Ssh.Upload.Budget.{request_concurrency-bounds, shared_by}

abbrev local_file : ℕ → ℕ
local_file p = p + 1

abbrev empty_file : ℕ → ℕ
empty_file p = 0

-- The second of two chunks arrives first.
abbrev swapped : List Event
swapped =
    dispatch
    ∷ dispatch
    ∷ result 1 false (returned 7232 false)
    ∷ result 0 true (returned 32768 false)
    ∷ []

abbrev broken : List Event
broken =
    dispatch
    ∷ dispatch
    ∷ result 1 true (returned 7232 false)
    ∷ result 0 false (returned 10 true)
    ∷ []

swapped_succeeds :
    let (c, safe, verdict) =
      conclude local_file 0 40000
        (run_transfer local_file 0 40000 swapped (new_transfer 40000 8 empty_file)) in
    (safe ≡ 40000) × (verdict ≡ ok tt) × (c.reports ≡ gained 40000 ∷ [])
unfolding conclude run_transfer step_transfer collect acknowledge flush_progress advance
swapped_succeeds = (refl, refl, refl)

broken_reports :
    let (c, safe, verdict) =
      conclude local_file 0 40000
        (run_transfer local_file 0 40000 broken (new_transfer 40000 8 empty_file)) in
    (safe ≡ 0) × (c.reports ≡ gained 7232 ∷ gained 10 ∷ lost 7242 ∷ [])
unfolding conclude run_transfer step_transfer collect acknowledge flush_progress advance
broken_reports = (refl, refl)

run-prefix_example :
    let t = run_transfer local_file 0 40000 swapped (new_transfer 40000 8 empty_file) in
    (39999 < 0 → t.remote 39999 ≡ 0)
    × (0 ≤ 39999 → 39999 < 0 + safe_bytes local_file 0 40000 t.collector → t.remote 39999 ≡ 40000)
run-prefix_example = run-prefix local_file empty_file 0 40000 swapped 8 39999

conclude-reports_example :
    let t = run_transfer local_file 0 40000 broken (new_transfer 40000 8 empty_file) in
    let (c, safe, verdict) = conclude local_file 0 40000 t in
    gained_sum c.reports ≡ safe + lost_sum c.reports
conclude-reports_example = conclude-reports local_file 0 40000 broken 8 empty_file

conclude-Clean_example :
    let t = run_transfer local_file 0 40000 swapped (new_transfer 40000 8 empty_file) in
    ((conclude local_file 0 40000 t).1 ≡ 40000)
    × ((conclude local_file 0 40000 t).2 ≡ ok tt)
    × ((p : ℕ) → 0 ≤ p → p < 40000 → t.remote p ≡ local_file p)
unfolding run_transfer step_transfer collect acknowledge flush_progress advance
conclude-Clean_example =
    conclude-Clean local_file empty_file 0 40000 8 swapped (omega arith) (refl, (refl, tt)) refl
      (λ i. ground arith)

write_upload_file-ok_example :
    let out = write_upload_file local_file 0 40000 8 empty_file swapped in
    (out.0.1 ≡ 40000) × ((p : ℕ) → 0 ≤ p → p < 40000 → out.1 p ≡ local_file p)
unfolding write_upload_file conclude run_transfer step_transfer collect acknowledge flush_progress
    advance
write_upload_file-ok_example = write_upload_file-ok local_file empty_file 0 40000 8 swapped refl

request_concurrency-bounds_example :
    let r = request_concurrency 40000 3 in
    (1 ≤ r)
    × ((r - 1) * upload_packet_size ≤ 40000 - 1)
    × (3 ≤ pipeline_budget → 3 * r ≤ pipeline_budget)
    × (pipeline_budget < 3 → r ≡ 1)
    × ((40000 ≤ r * upload_packet_size) ⊎ (pipeline_budget < shared_by 3 * (r + 1)))
request_concurrency-bounds_example = request_concurrency-bounds 40000 3
