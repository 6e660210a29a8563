-- ===== src/Ssh/Upload/Budget.antt =====
-- How many requests are in flight.
use lab_remote_go.Common.{
  ℕ, ◌+◌, ◌-◌, ◌*◌, ◌/◌, ◌≤◌, ◌<◌, ◌≡◌, ◌⊎◌, inl, inr, max, if◌then◌else◌, ltb, leb, ◌==◌, Bool,
  true, false, arith, refl,
}
use mathlib.Core.Path.{subst}
use native.Mathlib.Nat.{le-div_iff_mul-le, mul_comm}
use native.Mathlib.Decide.{dec_lt}
use lab_remote_go.Ssh.Upload.{pipeline_budget, upload_packet_size, chunk_count, request_concurrency}

-- as many requests as packets, within a budget
abbrev within : ℕ → ℕ → ℕ
within remaining budget =
    if remaining == 0
    then 1
    else if leb budget (chunk_count remaining)
    then budget
    else chunk_count remaining

within_lem :
    (remaining budget : ℕ)
    → 1 ≤ budget
    → let r = within remaining budget in
      (1 ≤ r)
      × (r ≤ budget)
      × ((r - 1) * upload_packet_size ≤ remaining - 1)
      × ((r ≡ budget) ⊎ (remaining ≤ r * upload_packet_size))
within_lem remaining budget h = (
  ground arith,
  ground arith,
  ground arith,
  elim (dec_lt (within remaining budget) budget) [
    | yes less ↦ inr (ground arith)
    | no same ↦ inl (ground arith)
  ],
)

-- one file counts where the caller gives none
abbrev pub shared_by : ℕ → ℕ
shared_by files = if ltb files 1 then 1 else files

at_most_quotient :
    (files n : ℕ) → 1 ≤ files → n * files ≤ pipeline_budget → n ≤ pipeline_budget / files
at_most_quotient files n lo h =
    (le-div_iff_mul-le {k = files} {x = n} {y = pipeline_budget} (omega arith)).1 h

-- The share of a file in the budget: with the files side by side it fits, and one more does not.
share_lem :
    (files : ℕ)
    → 1 ≤ files
    → let share = max 1 (pipeline_budget / files) in
      (files ≤ pipeline_budget → files * share ≤ pipeline_budget)
      × (pipeline_budget < files → share ≡ 1)
      × (pipeline_budget < files * (share + 1))
share_lem files lo =
    let q : ℕ = pipeline_budget / files in
    let fits : q * files ≤ pipeline_budget =
      (le-div_iff_mul-le {k = files} {x = q} {y = pipeline_budget} (omega arith)).0 (omega arith) in
    let more : pipeline_budget < (q + 1) * files = elim (dec_lt pipeline_budget ((q + 1) * files)) [
      | yes h ↦ h
      | no h ↦
          let le : q + 1 ≤ q = at_most_quotient files (q + 1) lo (omega arith) in
          absurd (omega (arith, le))
    ] in
    elim (dec_lt q 1) [
      | yes none_each ↦
          let e : max 1 q ≡ 1 = omega arith in
          let z : q ≡ 0 = omega arith in
          let past : pipeline_budget < files =
            omega (arith, subst (λ k. pipeline_budget < (k + 1) * files) z more) in
          rw e ((λ h. absurd (omega arith)), (λ h. refl), omega arith)
      | no some_each ↦
          let e : max 1 q ≡ q = omega arith in
          rw e (
            (λ h. rw (mul_comm files q) fits),
            (λ h.
                let le : 1 * files ≤ pipeline_budget =
                  (le-div_iff_mul-le {k = files} {x = 1} {y = pipeline_budget} (omega arith)).0
                    (omega arith) in
                absurd (omega (arith, le))),
            rw (mul_comm files (q + 1)) more,
          )
    ]

-- what a share of `n` files comes to
module _ (remaining n : ℕ) where
  abbrev granted : ℕ
  granted = within remaining (max 1 (pipeline_budget / n))

  granted_lem :
      1 ≤ n
      → (1 ≤ granted)
        × ((granted - 1) * upload_packet_size ≤ remaining - 1)
        × (n ≤ pipeline_budget → n * granted ≤ pipeline_budget)
        × (pipeline_budget < n → granted ≡ 1)
        × ((remaining ≤ granted * upload_packet_size) ⊎ (pipeline_budget < n * (granted + 1)))
  granted_lem lo =
      let share : ℕ = max 1 (pipeline_budget / n) in
      let (one, most, packets, full) = within_lem remaining share (omega arith) in
      let (together, single, more) = share_lem n lo in
      (
        one,
        packets,
        (λ h.
            let least : 1 ≤ pipeline_budget / n = at_most_quotient n 1 lo (omega arith) in
            rw (mul_comm n granted) (
              (le-div_iff_mul-le {k = n} {x = granted} {y = pipeline_budget} (omega arith)).0
                (omega (arith, most, least)))),
        (λ h. let e = single h in omega (arith, e, one, most)),
        elim full [ inl same ↦ inr (rw same more) | inr enough ↦ inl enough ],
      )

-- A file gets at least one request, and no more than it has packets. Files that are uploaded side by
-- side share a budget of 64: up to 64 of them stay within it, and of more each gets one request. A file
-- gets as many as that allows: enough for all its packets, or one more for each file passes the budget.
pub request_concurrency-bounds :
    (remaining files : ℕ)
    → let r = request_concurrency remaining files in
      (1 ≤ r)
      × ((r - 1) * upload_packet_size ≤ remaining - 1)
      × (files ≤ pipeline_budget → files * r ≤ pipeline_budget)
      × (pipeline_budget < files → r ≡ 1)
      × ((remaining ≤ r * upload_packet_size) ⊎ (pipeline_budget < shared_by files * (r + 1)))
unfolding request_concurrency
request_concurrency-bounds remaining files = by_files (ltb files 1) refl
  where
    by_files :
        (none : Bool)
        → ltb files 1 ≡ none
        → let shared : ℕ = if none then 1 else files in
          let r = granted remaining shared in
          (1 ≤ r)
          × ((r - 1) * upload_packet_size ≤ remaining - 1)
          × (files ≤ pipeline_budget → files * r ≤ pipeline_budget)
          × (pipeline_budget < files → r ≡ 1)
          × ((remaining ≤ r * upload_packet_size) ⊎ (pipeline_budget < shared * (r + 1)))
    by_files false e = granted_lem remaining files (ground arith)
    by_files true e =
        let z : files ≡ 0 = ground arith in
        let (one, packets, fits, single, full) = granted_lem remaining 1 (omega arith) in
        (one, packets, (λ h. rw z (omega arith)), (λ h. absurd (omega (arith, z, h))), full)
