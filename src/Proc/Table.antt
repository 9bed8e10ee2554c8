-- ===== src/Proc/Table.antt =====
-- The free list of process control blocks: `init_proc`, `alloc_proc` and `free_proc`.
pub mod FreeList
use myos_git.Prelude.{ℕ, zero, suc, ◌+◌, Option, none, some, update}
use myos_git.Prelude.Result.{Res, ok, fault}
use myos_git.Proc.State.{Status, stop, Proc, System, set_proc}

-- `MAXPROC`.
abbrev pub maxproc : ℕ
maxproc = 10

-- The loop of `init_proc` over the indices n - 1, …, 0.
link_procs : ℕ → (ℕ → Proc) → Option ℕ → (ℕ → Proc) × Option ℕ
link_procs zero procs p = (procs, p)
link_procs (suc n) procs p = link_procs n (update procs n (record (procs n) { link = p })) (some n)

pub init_proc : System → System
init_proc s =
    let (procs, p) = link_procs maxproc s.procs none in record s { procs = procs; proc_head = p }

-- The block that `alloc_proc` hands out: all zero but for its status and its pid.
abbrev pub new_proc : ℕ → Proc
new_proc p = record {
  rax = 0;
  pregs = λ i. 0;
  pid = p;
  ppid = 0;
  status = stop;
  link = none;
  pgdir = none;
  fdtable = λ fd. none;
}

unfoldable pub alloc_from : Option ℕ → System → Res System ℕ
alloc_from none s = fault
alloc_from (some p) s = ok p (set_proc p (new_proc p) (record s { proc_head = (s.procs p).link }))

-- The source follows `proc_head` before any test for NULL.
unfoldable pub alloc_proc : System → Res System ℕ
unfolding alloc_from
alloc_proc s = alloc_from s.proc_head s

pub free_proc : ℕ → System → System
free_proc p s = record (set_proc p (record (s.procs p) { link = s.proc_head }) s) {
  proc_head = some p;
}
