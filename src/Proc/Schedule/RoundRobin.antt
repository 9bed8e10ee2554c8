-- ===== src/Proc/Schedule/RoundRobin.antt =====
-- Which process `schedule` enters.
use mathlib.Core.Path.{subst}
use myos_git.Prelude.{
  ℕ, zero, suc, ◌+◌, ◌-◌, ◌%◌, ◌<◌, ◌≤◌, ◌≡◌, refl, ap, ◌∙◌, inl, inr, true, false, Bool, none,
  some, arith, ◌==◌, Bool-cases,
}
use myos_git.Proc.State.{System}
use myos_git.Proc.Schedule.{
  is_runnable, Outcome, run, halt, enter, run_again, search_from, cur_index, schedule,
}

abbrev pub can_run : System → ℕ → Bool
can_run s p = is_runnable (s.procs p).status

-- The choice among the processes from `next` on, round the table, up to d steps: the first that can run
-- is entered, and the processor halts only if none can.
abbrev pub IsChosen : System → (next d : ℕ) → Outcome × System → Type 0
IsChosen s next d (run p, t) =
    (t ≡ record s { current = some p })
    × (can_run s p ≡ true)
    × (e : ℕ) × (e ≤ d)
    × (p ≡ (next + e) % 10)
    × ((j : ℕ) → j < e → can_run s ((next + j) % 10) ≡ false)
IsChosen s next d (halt, t) =
    (t ≡ record s { current = none }) × ((j : ℕ) → j ≤ d → can_run s ((next + j) % 10) ≡ false)

run_again-IsChosen : (cur : ℕ) (s : System) → cur < 10 → IsChosen s cur 0 (run_again cur s)
unfolding run_again enter
run_again-IsChosen cur s small =
    let here : (cur + 0) % 10 ≡ cur = omega arith in
    elim (Bool-cases (can_run s cur)) [
      | inl can ↦ rw can (refl, can, 0, omega arith, omega arith, λ j lt. absurd (omega arith))
      | inr not_now ↦
          rw not_now
            (refl, λ j le. let e : (cur + j) % 10 ≡ cur = omega arith in ap (can_run s) e ∙ not_now)
    ]

-- One process more in front that cannot run.
IsChosen-step :
    (s : System) (next d d' : ℕ) (r : Outcome × System)
    → next < 10
    → d ≡ suc d'
    → can_run s next ≡ false
    → IsChosen s ((next + 1) % 10) d' r
    → IsChosen s next d r
IsChosen-step s next d d' (run p, t) small e skip (same, can, k, le, at, before) = (
  same,
  can,
  suc k,
  omega arith,
  omega arith,
  λ j lt. elim (Bool-cases (j == 0)) [
    | inl first ↦ let here : (next + j) % 10 ≡ next = ground arith in ap (can_run s) here ∙ skip
    | inr later ↦
        let there : (next + j) % 10 ≡ ((next + 1) % 10 + (j - 1)) % 10 = ground arith in
        ap (can_run s) there ∙ before (j - 1) (ground arith)
  ],
)
IsChosen-step s next d d' (halt, t) small e skip (same, before) = (
  same,
  λ j le. elim (Bool-cases (j == 0)) [
    | inl first ↦ let here : (next + j) % 10 ≡ next = ground arith in ap (can_run s) here ∙ skip
    | inr later ↦
        let there : (next + j) % 10 ≡ ((next + 1) % 10 + (j - 1)) % 10 = ground arith in
        ap (can_run s) there ∙ before (j - 1) (ground arith)
  ],
)

search_from-IsChosen :
    (fuel cur next : ℕ) (s : System)
    → cur < 10
    → next < 10
    → (cur + 10 - next) % 10 ≤ fuel
    → IsChosen s next ((cur + 10 - next) % 10) (search_from fuel cur next s)
unfolding search_from enter
search_from-IsChosen zero cur next s small small2 enough =
    let e : next ≡ cur = omega arith in
    let d : (cur + 10 - cur) % 10 ≡ 0 = omega arith in rw (e, d) (run_again-IsChosen cur s small)
search_from-IsChosen (suc fuel) cur next s small small2 enough = elim (Bool-cases (cur == next)) [
  | inl same ↦
      let e : next ≡ cur = ground arith in
      let d : (cur + 10 - cur) % 10 ≡ 0 = omega arith in
      let self : (cur == cur) ≡ true = ground arith in
      rw (e, d, self) (run_again-IsChosen cur s small)
  | inr other ↦ elim (Bool-cases (can_run s next)) [
    | inl can ↦
        rw (other, can) (refl, can, 0, omega arith, omega arith, λ j lt. absurd (omega arith))
    | inr skip ↦
        rw (other, skip)
          (IsChosen-step s next ((cur + 10 - next) % 10) ((cur + 10 - (next + 1) % 10) % 10)
            (search_from fuel cur ((next + 1) % 10) s) small2 (ground arith) skip
            (search_from-IsChosen fuel cur ((next + 1) % 10) s small (omega arith) (ground arith)))
  ]
]

-- From a current process of a pid below 9, or from none, which counts as pid 0, `schedule` is round robin: it
-- enters the first process behind the current one, round the table and the current one last, that
-- is RUNNABLE, and it halts exactly if none is.
pub schedule-IsChosen :
    (s : System) → cur_index s.current s < 9 → IsChosen s (cur_index s.current s + 1) 9 (schedule s)
unfolding schedule
schedule-IsChosen s small =
    let c = cur_index s.current s in
    let d : (c + 10 - (c + 1)) % 10 ≡ 9 = omega arith in
    subst (λ n. IsChosen s (c + 1) n (search_from 10 c (c + 1) s)) d
      (search_from-IsChosen 10 c (c + 1) s (omega arith) (omega arith) (omega arith))

-- From a current process of pid 9, with nothing RUNNABLE where the block behind the table would be,
-- `schedule` looks at the processes 1 to 9 only: it never enters process 0, RUNNABLE or not.
pub schedule-IsChosen_last :
    (s : System) → cur_index s.current s ≡ 9 → can_run s 10 ≡ false → IsChosen s 1 8 (schedule s)
unfolding schedule search_from
schedule-IsChosen_last s last behind =
    rw (last, behind) (search_from-IsChosen 9 9 1 s (omega arith) (omega arith) (omega arith))
