-- ===== src/Proc/State.antt =====
-- The state of kernel/proc.c.
use myos_git.Prelude.{ℕ, Option, update}
use myos_git.Prelude.Result.{Res, ok, fault}
use myos_git.File.State.{File}
use myos_git.Mm.State.{Mm}

-- `enum PROC_STATUS`.
pub data Status : Type 0 where
  running : Status
  runnable : Status
  sleep : Status
  stop : Status

-- `struct proc`. The registers are `rax` and the others by their place in `struct pt_regs`; `pgdir` is
-- the frame of the top-level table, none for NULL, and `fdtable` has the indices of files.
pub record Proc : Type 0 where
  pub rax : ℕ
  pub pregs : ℕ → ℕ
  pub pid : ℕ
  pub ppid : ℕ
  pub status : Status
  pub link : Option ℕ
  pub pgdir : Option ℕ
  pub fdtable : ℕ → Option ℕ

-- `procs`, `proc_head`, `current`, the frame of `kpgdir`, the memory and `filetable`. Processes are their
-- indices in `procs`.
pub record System : Type 0 where
  pub procs : ℕ → Proc
  pub proc_head : Option ℕ
  pub current : Option ℕ
  pub kpgdir : ℕ
  pub mm : Mm
  pub filetable : ℕ → File

-- A step of the memory within the system.
abbrev pub lift_mm {ℓ} : {A : Type ℓ} → Res Mm A → System → Res System A
lift_mm (ok a t) s = ok a (record s { mm = t })
lift_mm fault s = fault

abbrev pub set_proc : ℕ → Proc → System → System
set_proc p v s = record s { procs = update s.procs p v }
