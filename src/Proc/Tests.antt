-- ===== src/Proc/Tests.antt =====
-- Runs of kernel/proc.c on small tables.
use myos_git.Prelude.{
  ℕ, zero, suc, ◌<◌, true, false, ◌≡◌, refl, Option, none, some, [], arith, ◌==◌, ltb,
  if◌then◌else◌, range,
}
use myos_git.Prelude.Int.{pos}
use myos_git.Prelude.Result.{Returns}
use myos_git.File.State.{fdfile}
use myos_git.Proc.State.{runnable, stop, Proc, System}
use myos_git.Proc.Table.{init_proc, alloc_proc}
use myos_git.Proc.Table.FreeList.{IsAllocated, init_proc-IsFreeList, alloc_proc-IsAllocated}
use myos_git.Proc.Schedule.{schedule, search_from, cur_index, run}
use myos_git.Proc.Schedule.Fair.{IsRun, schedule-IsFair}
use myos_git.Proc.Schedule.RoundRobin.{can_run, IsChosen, schedule-IsChosen}
use myos_git.Proc.Life.{copy_files, drop_files}
use myos_git.Proc.Life.Dropped.{drop_files-copy_files}

-- The processes 2 and 5 can run; process 2 has file 4 open at the descriptors 0 and 1.
abbrev some_proc : ℕ → Proc
some_proc p = record {
  rax = 0;
  pregs = λ i. 0;
  pid = p;
  ppid = 0;
  status = if p == 2 then runnable else if p == 5 then runnable else stop;
  link = none;
  pgdir = none;
  fdtable = λ fd. if p == 2 then (if ltb fd 2 then some 4 else none) else none;
}

-- The system with the given current process.
abbrev system_of : Option ℕ → System
system_of p = record {
  procs = some_proc;
  proc_head = none;
  current = p;
  kpgdir = 1;
  mm = record {
    phead = none;
    pages = λ i. record { link = none; count = pos 1 };
    mem = λ f i. 0;
    flushed = [];
  };
  filetable = λ f. record { refcount = pos 2; offset = 0; inode = some 3; file_type = fdfile };
}

alloc_proc-IsAllocated_example :
    Returns
      (IsAllocated (init_proc (system_of none)) 0 (range 1 9))
      (alloc_proc (init_proc (system_of none)))
alloc_proc-IsAllocated_example =
    alloc_proc-IsAllocated (init_proc (system_of none)) 0 (range 1 9)
      (init_proc-IsFreeList (system_of none))

schedule-IsChosen_example : IsChosen (system_of (some 2)) 3 9 (schedule (system_of (some 2)))
unfolding cur_index
schedule-IsChosen_example = schedule-IsChosen (system_of (some 2)) (omega arith)

drop_files-copy_files_example :
    ((drop_files 32 7 0 (copy_files 32 2 7 0 (system_of (some 2)))).filetable 4).refcount ≡ pos 2
drop_files-copy_files_example =
    drop_files-copy_files (system_of (some 2)) 2 7 4 (λ e. omega arith) (λ j. refl)

-- The processes 2 and 5 in turn.
abbrev turns : ℕ → System
turns zero = system_of (some 2)
turns (suc zero) = system_of (some 5)
turns (suc (suc i)) = turns i

turns_pids : (i p : ℕ) → ((turns i).procs p).pid ≡ p
turns_pids zero p = refl
turns_pids (suc zero) p = refl
turns_pids (suc (suc i)) p = turns_pids i p

turns_ready : (i : ℕ) → can_run (turns i) 5 ≡ true
turns_ready zero = refl
turns_ready (suc zero) = refl
turns_ready (suc (suc i)) = turns_ready i

turns_last : (i : ℕ) → can_run (turns i) 9 ≡ false
turns_last zero = refl
turns_last (suc zero) = refl
turns_last (suc (suc i)) = turns_last i

turns_kept : (i : ℕ) → (turns (suc i)).current ≡ (schedule (turns i)).1.current
unfolding schedule search_from cur_index
turns_kept zero = refl
turns_kept (suc zero) = refl
turns_kept (suc (suc i)) = turns_kept i

turns-IsRun : IsRun 5 turns
turns-IsRun = record {
  pids = λ i p small. turns_pids i p;
  ready = turns_ready;
  last = turns_last;
  kept = turns_kept;
}

schedule-IsFair_example : (n : ℕ) × (n < 10) × ((schedule (turns n)).0 ≡ run 5)
unfolding cur_index
schedule-IsFair_example = schedule-IsFair 5 turns (omega arith) turns-IsRun (omega arith)
