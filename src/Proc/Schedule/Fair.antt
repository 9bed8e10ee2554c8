-- ===== src/Proc/Schedule/Fair.antt =====
-- Every process that stays RUNNABLE is entered: `schedule` called again and again.
use myos_git.Prelude.{
  ℕ, zero, suc, ◌+◌, ◌-◌, ◌%◌, ◌<◌, ◌≡◌, ◌≢◌, refl, ap, ◌∙◌, inl, inr, true, false, some, arith,
  ◌==◌, ==_iff, Bool-cases, ltb, ltb→lt,
}
use myos_git.Proc.State.{System}
use myos_git.Proc.Schedule.{Outcome, run, halt, cur_index, schedule}
use myos_git.Proc.Schedule.RoundRobin.{can_run, IsChosen, schedule-IsChosen}

-- The states at the calls of `schedule`. Between two calls all may change but which process is the current one, that
-- the pids are the places in the table, that process q is RUNNABLE and that process 9 is not.
pub record IsRun (q : ℕ) (σ : ℕ → System) : Type 0 where
  pub pids : (i p : ℕ) → p < 10 → ((σ i).procs p).pid ≡ p
  pub ready : (i : ℕ) → can_run (σ i) q ≡ true
  pub last : (i : ℕ) → can_run (σ i) 9 ≡ false
  pub kept : (i : ℕ) → (σ (suc i)).current ≡ (schedule (σ i)).1.current

abbrev pub index_at : (ℕ → System) → ℕ → ℕ
index_at σ i = cur_index (σ i).current (σ i)

-- The steps round the table from behind the current process to q.
abbrev distance : ℕ → ℕ → ℕ
distance q c = (q + 9 - c) % 10

-- A choice with q RUNNABLE enters q, or a process that is nearer.
closer :
    (q c : ℕ) (s : System) (r : Outcome × System)
    → q < 10
    → c < 9
    → can_run s q ≡ true
    → IsChosen s (c + 1) 9 r
    → (p : ℕ) × (r.0 ≡ run p)
      × (r.1.current ≡ some p)
      × (can_run s p ≡ true)
      × (p < 10)
      × (p ≢ q → distance q p < distance q c)
closer q c s (run p, t) hq hc can (same, able, e, le, at, before) = (
  p,
  refl,
  ap (λ u. u.current) same,
  able,
  omega arith,
  λ ne.
      let at_q : (c + 1 + distance q c) % 10 ≡ q = omega arith in
      elim (Bool-cases (ltb (distance q c) e)) [
        | inl passed ↦ cc (before (distance q c) (ltb→lt _ _ passed), ap (can_run s) at_q, can)
        | inr reached ↦
            let not_there : e ≢ distance q c =
              λ same_step. ne (at ∙ ap (λ d. (c + 1 + d) % 10) same_step ∙ at_q) in
            ground arith
      ],
)
closer q c s (halt, t) hq hc can (same, before) =
    let at : (c + 1 + distance q c) % 10 ≡ q = omega arith in
    cc (before (distance q c) (omega arith), ap (can_run s) at, can)

-- The run from its second state on.
later-IsRun : {q : ℕ} {σ : ℕ → System} → IsRun q σ → IsRun q (λ i. σ (suc i))
later-IsRun r = record {
  pids = λ i p small. r.pids (suc i) p small;
  ready = λ i. r.ready (suc i);
  last = λ i. r.last (suc i);
  kept = λ i. r.kept (suc i);
}

entered_within :
    (k q : ℕ) (σ : ℕ → System)
    → q < 10
    → IsRun q σ
    → index_at σ 0 < 9
    → distance q (index_at σ 0) < k
    → (n : ℕ) × (n < k) × ((schedule (σ n)).0 ≡ run q)
unfolding cur_index
entered_within zero q σ hq r small near = absurd (omega arith)
entered_within (suc k) q σ hq r small near =
    let (p, entered, current, able, small_p, nearer) =
      closer q (index_at σ 0) (σ 0) (schedule (σ 0)) hq small (r.ready 0)
        (schedule-IsChosen (σ 0) small) in
    elim (Bool-cases (p == q)) [
      | inl same ↦ (0, omega arith, entered ∙ ap run ((==_iff p q).0 same))
      | inr other ↦
          let ne : p ≢ q = λ e. cc (other, (==_iff p q).1 e) in
          let index : index_at σ 1 ≡ p = rw (r.kept 0 ∙ current) (r.pids 1 p small_p) in
          let not_last : p ≢ 9 = λ e. cc (able, ap (can_run (σ 0)) e, r.last 0) in
          let (n, soon, there) =
            entered_within k q (λ i. σ (suc i)) hq (later-IsRun r) (omega (arith, index))
              (omega (arith, index, nearer ne)) in
          (suc n, omega arith, there)
    ]

-- Let each call of `schedule` but the first find as the current process the one that the call before left, the pids be
-- the places in the table, process q be RUNNABLE and process 9 not RUNNABLE at every call, and the first call
-- begin at a place before 9. Then one of the first ten calls enters q.
pub schedule-IsFair :
    (q : ℕ) (σ : ℕ → System)
    → q < 10
    → IsRun q σ
    → index_at σ 0 < 9
    → (n : ℕ) × (n < 10) × ((schedule (σ n)).0 ≡ run q)
schedule-IsFair q σ hq r small = entered_within 10 q σ hq r small (omega arith)
