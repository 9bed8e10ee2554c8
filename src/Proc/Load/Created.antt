-- ===== src/Proc/Load/Created.antt =====
-- What `create_proc` of kernel/proc.c starts.
use mathlib.Core.Path.{subst}
use myos_git.Prelude.{
  ℕ, zero, suc, inl, inr, Bool-cases, ◌+◌, ◌*◌, ◌≤◌, ◌<◌, ◌≡◌, ◌≢◌, refl, sym, ap, ◌∙◌, true, false,
  Option, none, some, List, ◌∷◌, arith, length, update, ◌==◌,
}
use myos_git.Prelude.Result.{Res, and_then, Returns, returns, Returns-and_then}
use myos_git.Mm.State.{Mm}
use myos_git.Mm.{alloc_page, present}
use myos_git.Mm.Frames.{IsTaken, alloc_page-cons}
use myos_git.Mm.Tables.{Owner, place, IsUserIndex}
use myos_git.Mm.Walk.{IsTables, unowned-update}
use myos_git.Boot.{e_phnum, e_entry}
use myos_git.Proc.State.{System, runnable}
use myos_git.Proc.Table.{new_proc, alloc_proc, alloc_from}
use myos_git.Proc.Schedule.{Outcome, run, enter}
use myos_git.Proc.Space.{alloc_vm, copy_table, ustacktop}
use myos_git.Proc.Load.{
  create_proc, set_up, prepared, start_proc, load_img, reg_rip, reg_rsp, reg_cs, reg_ss, reg_eflags,
}
use myos_git.Proc.Load.Loaded.{IsImage, needed}
use myos_git.Proc.Load.Whole.{IsSpace, IsProgram, load_img-IsProgram}

-- The process started, in an address space of its own below the top-level table.
pub record IsStarted (binary : ℕ → ℕ) (owner : Owner) (p top : ℕ) (r : Outcome) (t : System)
    : Type 0 where
  pub outcome : r ≡ run p
  pub current : t.current ≡ some p
  pub status : (t.procs p).status ≡ runnable
  pub root : (t.procs p).pgdir ≡ some top
  pub space : IsSpace binary top (update owner top (some (place top 0 0))) t.mm
  pub rip : (t.procs p).pregs reg_rip ≡ e_entry binary 0
  pub rsp : (t.procs p).pregs reg_rsp ≡ ustacktop
  pub cs : (t.procs p).pregs reg_cs ≡ 0x1b
  pub ss : (t.procs p).pregs reg_ss ≡ 0x23
  pub eflags : (t.procs p).pregs reg_eflags ≡ 0x200
  pub fdtable : (fd : ℕ) → (t.procs p).fdtable fd ≡ none

-- The block before the loading.
record IsPrepared (p top : ℕ) (u : System) : Type 0 where
  root : (u.procs p).pgdir ≡ some top
  cs : (u.procs p).pregs reg_cs ≡ 0x1b
  ss : (u.procs p).pregs reg_ss ≡ 0x23
  eflags : (u.procs p).pregs reg_eflags ≡ 0x200
  fdtable : (fd : ℕ) → (u.procs p).fdtable fd ≡ none

prepared-IsPrepared :
    (p top : ℕ) (m : Mm) (t : System)
    → t.procs p ≡ new_proc p
    → IsPrepared p top (prepared p top m t)
unfolding prepared
prepared-IsPrepared p top m t fresh = record {
  root = ground arith;
  cs = ground (arith, fresh);
  ss = ground (arith, fresh);
  eflags = ground (arith, fresh);
  fdtable = λ fd. ground (arith, fresh);
}

prepared-mm : (p top : ℕ) (m : Mm) (t : System) → (prepared p top m t).mm ≡ m
unfolding prepared
prepared-mm p top m t = refl

-- A kernel's table without users' entries, copied to a free page.
module _ (owner : Owner) (s : Mm) (top kpgdir : ℕ) (xs : List ℕ) (w : IsTables owner s (top ∷ xs))
    (out : top ≢ kpgdir) (kernel : (i : ℕ) → i < 511 → present (s.mem kpgdir i) ≡ false) where
  abbrev with_top : Owner
  with_top = update owner top (some (place top 0 0))

  -- The copied table has no entry of users, and the others keep theirs.
  no_entry :
      (t : Mm)
      → t.mem kpgdir ≡ s.mem kpgdir
      → (f r d k i : ℕ) → (top == f) ≡ true
      → with_top f ≡ some (place r d k)
      → IsUserIndex d i
      → present (t.mem kpgdir i) ≡ false
  no_entry t same f r zero k i hit at user = ap (λ m. present (m i)) same ∙ kernel i user
  no_entry t same f r (suc d) k i hit at user = ground (arith, hit, at)

  copied-IsTables :
      (t : Mm)
      → IsTaken s 1 top xs t
      → IsTables with_top (record t { mem = update t.mem top (t.mem kpgdir) }) xs
  copied-IsTables t taken =
      let same : t.mem kpgdir ≡ s.mem kpgdir = (taken.others kpgdir (λ e. out (sym e))).1 in
      record {
        free = record {
          chain = taken.free.chain;
          distinct = taken.free.distinct;
          unused = taken.free.unused;
        };
        forest = record {
          child = λ f r d k i at deep user here. elim (Bool-cases (top == f)) [
            | inl hit ↦
                let none_there = no_entry t same f r d k i hit at user in
                ground (arith, hit, none_there, here)
            | inr miss ↦
                let ne : f ≢ top = ground (arith, miss) in
                let kept : t.mem f ≡ s.mem f = (taken.others f ne).1 in
                ground
                  (arith, miss, at, here, ap (λ m. m i) kept, w.unowned.0, w.forest.child f r d k i)
          ];
        };
        unowned = unowned-update owner top (place top 0 0) xs w.free.distinct.0 w.unowned.1;
      }

  alloc_vm-IsTables :
      ((alloc_vm kpgdir s).0 ≡ some top) × IsTables with_top (alloc_vm kpgdir s).1 xs
  unfolding alloc_vm copy_table
  alloc_vm-IsTables = copied (alloc_page 1 s) (alloc_page-cons 1 top xs w.free)
    where
      copied :
          (r : Option ℕ × Mm)
          → (r.0 ≡ some top) × IsTaken s 1 top xs r.1
          → ((copy_table kpgdir r).0 ≡ some top) × IsTables with_top (copy_table kpgdir r).1 xs
      copied (o, t) (first, taken) =
          subst
            (λ x.
              ((copy_table kpgdir (x, t)).0 ≡ some top)
              × IsTables with_top (copy_table kpgdir (x, t)).1 xs)
            (sym first) (refl, copied-IsTables t taken)

module _ (binary : ℕ → ℕ) (image : IsImage binary) (owner : Owner) (p top : ℕ) (xs : List ℕ)
    (room : 4 * needed binary (e_phnum binary 0) 0 + 4 ≤ length xs) where
  abbrev top_owner : Owner
  top_owner = update owner top (some (place top 0 0))

  -- The rest of `create_proc`, with the address space.
  abbrev load_and_start : Option ℕ × Mm → System → Res System Outcome
  load_and_start r t =
      and_then (set_up p r t) (λ z u. and_then (load_img p binary u) (λ z' w. start_proc p w))

  start_proc-IsStarted :
      (u w : System)
      → IsPrepared p top u
      → IsProgram binary top_owner p top u w
      → Returns (λ r v. IsStarted binary owner p top r v) (start_proc p w)
  unfolding start_proc enter
  start_proc-IsStarted u w b prog = returns record {
    outcome = refl;
    current = refl;
    status = ground arith;
    root = ground (arith, prog.root);
    space = prog.space;
    rip = ground (arith, prog.rip);
    rsp = ground (arith, prog.rsp);
    cs = ground (arith, prog.regs reg_cs (omega arith) (omega arith), b.cs);
    ss = ground (arith, prog.regs reg_ss (omega arith) (omega arith), b.ss);
    eflags = ground (arith, prog.regs reg_eflags (omega arith) (omega arith), b.eflags);
    fdtable = λ fd. ground (arith, prog.fdtable fd, b.fdtable fd);
  }

  set_up-IsStarted :
      (t : System) (m : Mm)
      → t.procs p ≡ new_proc p
      → IsTables top_owner m xs
      → Returns (λ r u. IsStarted binary owner p top r u) (load_and_start (some top, m) t)
  unfolding set_up
  set_up-IsStarted t m fresh tables =
      let u = prepared p top m t in
      let b = prepared-IsPrepared p top m t fresh in
      Returns-and_then (λ z w. start_proc p w)
        (load_img-IsProgram binary top_owner u xs p top image
          (subst (λ n. IsTables top_owner n xs) (sym (prepared-mm p top m t)) tables) b.root
          (ground arith) room)
        (λ z w prog. start_proc-IsStarted u w b prog)

  space-IsStarted :
      (t : System) (r : Option ℕ × Mm)
      → t.procs p ≡ new_proc p
      → (r.0 ≡ some top) × IsTables top_owner r.1 xs
      → Returns (λ o u. IsStarted binary owner p top o u) (load_and_start r t)
  space-IsStarted t (o, m) fresh (first, tables) =
      subst (λ x. Returns (λ o' u. IsStarted binary owner p top o' u) (load_and_start (x, m) t))
        (sym first) (set_up-IsStarted t m fresh tables)

-- For an image with the ELF magic, whose segments lie below the stack's page, each within the pages that `memmap`
-- counts for it, and no two in one page; with a free process block, a kernel's table that has no entry for users,
-- well-formed tables, and four free pages for each page of the image, for the stack and one for the table:
-- `create_proc` starts a process in an address space of its own:
-- `run_proc` enters the block from the list's head, with the bytes of the image at their addresses, a clear stack,
-- user segments, interrupts on and no open file.
pub create_proc-IsStarted :
    (binary : ℕ → ℕ) (owner : Owner) (s : System) (p top : ℕ) (xs : List ℕ)
    → IsImage binary
    → s.proc_head ≡ some p
    → IsTables owner s.mm (top ∷ xs)
    → top ≢ s.kpgdir
    → ((i : ℕ) → i < 511 → present (s.mm.mem s.kpgdir i) ≡ false)
    → 4 * needed binary (e_phnum binary 0) 0 + 4 ≤ length xs
    → Returns (λ r t. IsStarted binary owner p top r t) (create_proc binary s)
unfolding create_proc alloc_proc alloc_from
create_proc-IsStarted binary owner s p top xs image head w out kernel room = rw head (
    space-IsStarted binary image owner p top xs room _ (alloc_vm s.kpgdir s.mm) (ground arith)
      (alloc_vm-IsTables owner s.mm top s.kpgdir xs w out kernel))
