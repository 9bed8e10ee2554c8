-- ===== src/Proc/Schedule.antt =====
-- `schedule` and `sys_waitpid` of kernel/proc.c.
pub mod RoundRobin
pub mod Fair
use myos_git.Prelude.{
  ℕ, zero, suc, ◌+◌, ◌%◌, Bool, true, false, Option, none, some, ◌==◌, ltb, if◌then◌else◌,
}
use myos_git.Prelude.Int.{ℤ, pos, negsuc}
use myos_git.Proc.State.{Status, running, runnable, sleep, stop, Proc, System}
use myos_git.Proc.Table.{maxproc}

abbrev pub is_runnable : Status → Bool
is_runnable runnable = true
is_runnable running = false
is_runnable sleep = false
is_runnable stop = false

abbrev pub is_stop : Status → Bool
is_stop stop = true
is_stop running = false
is_stop runnable = false
is_stop sleep = false

-- How a call of `schedule` ends: `run_proc` enters a process and does not come back, or the processor halts
-- until an interrupt.
pub data Outcome : Type 0 where
  run : ℕ → Outcome
  halt : Outcome

-- `run_proc` of the process.
unfoldable pub enter : ℕ → System → Outcome × System
enter p s = (run p, record s { current = some p })

-- The end of `schedule` behind its loop.
run_again : ℕ → System → Outcome × System
unfolding enter
run_again curind s =
    if is_runnable (s.procs curind).status
    then enter curind s
    else (halt, record s { current = none })

-- The loop with `nextind`, on fuel; `maxproc` rounds are enough from each index.
unfoldable pub search_from : (fuel curind nextind : ℕ) → System → Outcome × System
unfolding run_again enter
search_from zero curind nextind s = run_again curind s
search_from (suc fuel) curind nextind s =
    let rest = search_from fuel curind ((nextind + 1) % maxproc) s in
    if curind == nextind
    then run_again curind s
    else if is_runnable (s.procs nextind).status
    then enter nextind s
    else rest

unfoldable pub cur_index : Option ℕ → System → ℕ
cur_index none s = 0
cur_index (some p) s = (s.procs p).pid

unfoldable pub schedule : System → Outcome × System
unfolding cur_index
schedule s = let curind = cur_index s.current s in search_from maxproc curind (curind + 1) s

-- A wait returns, or it enters `schedule`, whose `run_proc` leaves the waiting call.
pub data Waited : Type 0 where
  returned : ℤ → Waited
  scheduled : Outcome → Waited

scheduled_by : Outcome × System → Waited × System
scheduled_by (o, s) = (scheduled o, s)

pub sys_waitpid : ℤ → System → Waited × System
unfolding scheduled_by
sys_waitpid (negsuc n) s = (returned (negsuc 0), s)
sys_waitpid (pos pid) s =
    let again = scheduled_by (schedule s) in
    if ltb maxproc pid
    then (returned (negsuc 0), s)
    else if is_stop (s.procs pid).status
    then (returned (pos pid), s)
    else again
