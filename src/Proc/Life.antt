-- ===== src/Proc/Life.antt =====
-- `sys_fork`, `destroy_proc` and `sys_exit` of kernel/proc.c.
pub mod Files
pub mod Dropped
use myos_git.Prelude.{
  ℕ, zero, suc, ◌+◌, ◌-◌, ◌*◌, ◌/◌, Bool, true, false, Option, none, some, ◌==◌, if◌then◌else◌,
  update,
}
use myos_git.Prelude.Int.{ℤ, pos, negsuc, inc, dec, is_zero}
use myos_git.Prelude.Result.{Res, ok, fault, and_then}
use myos_git.File.State.{File}
use myos_git.Mm.State.{Mm}
use myos_git.Mm.{
  frame_of, present, Slot, alloc_page, walk_page, insert_page, table_flags, page_size,
}
use myos_git.Proc.State.{Status, runnable, stop, Proc, System, lift_mm, set_proc}
use myos_git.Proc.Table.{alloc_proc, free_proc}
use myos_git.Proc.Schedule.{Outcome, schedule}
use myos_git.Proc.Space.{utext, ustacktop, alloc_vm, share_pages, destroy_vm}

-- `MAXOPENFILE`.
abbrev pub maxopenfile : ℕ
maxopenfile = 32

-- A round of the loop that copies open files: the parent's descriptor `fd` holds the entry.
copy_file : (p fd : ℕ) → Option ℕ → System → System
copy_file p fd none s = s
copy_file p fd (some f) s =
    let child = s.procs p in
    let file = s.filetable f in
    set_proc p (record child { fdtable = update child.fdtable fd (some f) })
      (record s { filetable = update s.filetable f (record file { refcount = inc file.refcount }) })

-- The loop from `fd` on, with the rounds left.
pub copy_files : ℕ → (parent p fd : ℕ) → System → System
unfolding copy_file
copy_files zero parent p fd s = s
copy_files (suc n) parent p fd s =
    copy_files n parent p (fd + 1) (copy_file p fd ((s.procs parent).fdtable fd) s)

-- The frame that the processor reads for a user's page, by its entry; none is a page fault.
unfoldable pub user_frame : Option Slot → Mm → Option ℕ
user_frame none m = none
user_frame (some slot) m =
    let word = m.mem slot.table slot.index in if present word then some (frame_of word) else none

-- `memcpy` of a user's page to a new page, which the source does not test for NULL.
unfoldable pub copy_frame : Option ℕ → Option ℕ × Mm → Res Mm ℕ
copy_frame none r = fault
copy_frame (some src) (none, m) = fault
copy_frame (some src) (some pp, m) = ok pp (record m { mem = update m.mem pp (m.mem src) })

give_stack : (parent child : ℕ) → Mm → Res Mm ℤ
unfolding copy_frame user_frame
give_stack parent child m = and_then (walk_page parent (ustacktop - page_size) 0 m) (λ slot m1.
    and_then (copy_frame (user_frame slot m1) (alloc_page 1 m1))
      (λ pp m2. insert_page child (ustacktop - page_size) (some pp) table_flags m2))

-- The end of `sys_fork`.
finish_fork : (parent p : ℕ) → System → Res System ℤ
unfolding copy_files
finish_fork parent p s =
    let t = copy_files maxopenfile parent p 0 s in
    ok (pos (t.procs p).pid) (set_proc p (record (t.procs p) { status = runnable }) t)

-- `sys_fork` behind the loop over the pages, which a failed `insert_page` ends.
after_share : (parent p old new : ℕ) → ℤ → System → Res System ℤ
unfolding give_stack finish_fork
after_share parent p old new (negsuc n) s = ok (negsuc n) s
after_share parent p old new (pos n) s =
    and_then (lift_mm (give_stack old new s.mm) s) (λ r t. finish_fork parent p t)

-- `sys_fork` with the new table; without one it returns -1 and the new block stays taken.
fork_space : (parent p : ℕ) → Option ℕ → Option ℕ × Mm → System → Res System ℤ
unfolding after_share
fork_space parent p old (none, m) s = ok (negsuc 0) (record s { mm = m })
fork_space parent p none (some new, m) s = fault
fork_space parent p (some old) (some new, m) s =
    let t = set_proc p (record (s.procs p) { pgdir = some new }) (record s { mm = m }) in
    and_then
      (lift_mm (share_pages ((ustacktop - page_size - utext) / page_size) old new utext t.mm) t)
      (λ r u. after_share parent p old new r u)

fork_from : Option ℕ → ℕ → System → Res System ℤ
unfolding fork_space
fork_from none p s = fault
fork_from (some parent) p s =
    let of_parent = s.procs parent in
    let child = s.procs p in
    let t = set_proc p (record child { pregs = of_parent.pregs; rax = 0 }) s in
    fork_space parent p (t.procs parent).pgdir (alloc_vm t.kpgdir t.mm) t

pub sys_fork : System → Res System ℤ
unfolding fork_from
sys_fork s = and_then (alloc_proc s) (λ p t. fork_from t.current p t)

-- A round of the loop that drops a process's files.
drop_file : (p fd : ℕ) → Option ℕ → System → System
drop_file p fd none s = s
drop_file p fd (some f) s =
    let q = s.procs p in
    let file = s.filetable f in
    let count = dec file.refcount in
    let t = record s { filetable = update s.filetable f (record file { refcount = count }) } in
    if is_zero count then set_proc p (record q { fdtable = update q.fdtable fd none }) t else t

pub drop_files : ℕ → (p fd : ℕ) → System → System
unfolding drop_file
drop_files zero p fd s = s
drop_files (suc n) p fd s = drop_files n p (fd + 1) (drop_file p fd ((s.procs p).fdtable fd) s)

-- The comparison of two pointers to processes.
is_same : Option ℕ → ℕ → Bool
is_same none p = false
is_same (some q) p = q == p

-- How `destroy_proc` ends: it returns, or `schedule` goes on.
pub data Destroyed : Type 0 where
  returned : Destroyed
  scheduled : Outcome → Destroyed

went_on : Outcome × System → Res System Destroyed
went_on (o, s) = ok (scheduled o) s

-- `destroy_proc` behind the release of the memory.
after_vm : ℕ → System → Res System Destroyed
unfolding drop_files is_same went_on
after_vm p s =
    let t = free_proc p (drop_files maxopenfile p 0 s) in
    let u = set_proc p (record (t.procs p) { status = stop }) t in
    let rest = went_on (schedule (record u { current = none })) in
    if is_same u.current p then rest else ok returned u

destroy_space : ℕ → Option ℕ → System → Res System Destroyed
unfolding after_vm
destroy_space p none s = fault
destroy_space p (some pgdir) s =
    and_then (lift_mm (destroy_vm pgdir s.mm) s)
      (λ r t. after_vm p (set_proc p (record (t.procs p) { pgdir = none }) t))

pub destroy_proc : Option ℕ → System → Res System Destroyed
unfolding destroy_space
destroy_proc none s = ok returned s
destroy_proc (some p) s = destroy_space p (s.procs p).pgdir s

pub sys_exit : System → Res System Destroyed
unfolding destroy_proc
sys_exit s = destroy_proc s.current s
