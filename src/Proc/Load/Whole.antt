-- ===== src/Proc/Load/Whole.antt =====
-- What `load_img` of kernel/proc.c leaves: the segments, the stack and the registers.
use mathlib.Core.Path.{subst}
use myos_git.Prelude.{
  ℕ, ◌+◌, ◌-◌, ◌*◌, ◌≤◌, ◌<◌, ◌≡◌, ◌≢◌, refl, inl, Option, some, List, [], ◌∷◌, arith, length,
  bit_or,
}
use myos_git.Prelude.Int.{ℤ, pos}
use myos_git.Prelude.Result.{
  Res, ok, fault, and_then, Returns, returns, Returns-and_then, Returns-map,
}
use myos_git.Mm.State.{Mm}
use myos_git.Mm.{alloc_page, page2pa, page_size}
use myos_git.Mm.Tables.{Owner, place, entry_at}
use myos_git.Mm.Walk.{IsTables, Extends}
use myos_git.Mm.Walk.Range.{enter_new, enter_new-IsRange, IsRange, low-UserAddress}
use myos_git.Boot.{e_phoff, e_phnum, e_entry}
use myos_git.Proc.State.{System, lift_mm}
use myos_git.Proc.Space.{ustacktop}
use myos_git.Proc.Load.{load_space, give_page, load_in, load_img, start_at, reg_rip, reg_rsp}
use myos_git.Proc.Load.Kept.{range-kept}
use myos_git.Proc.Load.Loaded.{
  IsImage, IsLoad, Loaded, needed, IsFilled, load_segments-IsFilled, header,
}

give_page-eq : (pgdir va : ℕ) (r : Option ℕ × Mm) → give_page pgdir va r ≡ enter_new pgdir va 7 r
unfolding give_page
give_page-eq pgdir va (pp, s) = refl

module _ (binary : ℕ → ℕ) (pgdir : ℕ) where
  -- The address space of the program: the bytes of its segments, and a clear page for its stack.
  pub record IsSpace (owner : Owner) (t : Mm) : Type 0 where
    pub owner' : Owner
    pub left : List ℕ
    pub tables : IsTables owner' t left
    pub extends : Extends owner owner'
    pub loaded :
        (l : ℕ) → l < e_phnum binary 0 → IsLoad binary l → Loaded binary owner' t left pgdir l
    pub stack : ℕ
    pub stack_entry : entry_at t.mem pgdir (ustacktop - page_size) ≡ bit_or (page2pa stack) 7
    pub stack_clear : (j : ℕ) → t.mem stack j ≡ 0

  module _ (image : IsImage binary) (owner : Owner) (s : Mm) (xs : List ℕ) (t : Mm)
      (filled : IsFilled binary owner s xs pgdir (e_phnum binary 0) 0 t)
      (root : owner pgdir ≡ some (place pgdir 0 0)) where
    -- The stack's page stands behind all segments.
    stack-IsSpace :
        (p : ℕ) (ys : List ℕ) (u : Mm)
        → IsRange filled.owner' t filled.left pgdir (ustacktop - page_size) 1 7 1 u
        → IsSpace owner u
    stack-IsSpace p ys u r = record {
      owner' = r.owner';
      left = r.left;
      tables = r.tables;
      extends = λ q a at. r.extends q a (filled.extends q a at);
      loaded = λ l below load a from to.
          range-kept filled.owner' t filled.left pgdir (ustacktop - page_size) 1 7 1 u r
            (filled.extends pgdir (place pgdir 0 0) root) (omega arith) (omega arith) a _
            (filled.loaded l (omega arith) (omega arith) load a from to)
            (inl (omega (arith, image.below l below load, image.inside l below load)));
      stack = r.page 0;
      stack_entry = r.mapped 0 (omega arith);
      stack_clear = λ j. r.zeroed refl 0 j (omega arith);
    }

    -- One of the pages left is the stack's.
    give_page-IsSpace :
        (ys : List ℕ)
        → IsTables filled.owner' t ys
        → ys ≡ filled.left
        → 4 ≤ length ys
        → Returns
            (λ r u. IsSpace owner u)
            (give_page pgdir (ustacktop - page_size) (alloc_page 1 t))
    give_page-IsSpace [] w same room = absurd (omega arith)
    give_page-IsSpace (p ∷ ys) w same room =
        rw (give_page-eq pgdir (ustacktop - page_size) (alloc_page 1 t)) (
          Returns-map
            (enter_new-IsRange filled.owner' t p ys 1 7 pgdir (ustacktop - page_size) w
              (filled.extends pgdir (place pgdir 0 0) root)
              (low-UserAddress (ustacktop - page_size) (omega arith)) (omega arith))
            (λ r u h. stack-IsSpace p ys u (
              subst (λ zs. IsRange filled.owner' t zs pgdir (ustacktop - page_size) 1 7 1 u) same
                h)))

  load_space-IsSpace :
      (owner : Owner) (s : Mm) (xs : List ℕ)
      → IsImage binary
      → IsTables owner s xs
      → owner pgdir ≡ some (place pgdir 0 0)
      → 4 * needed binary (e_phnum binary 0) 0 + 4 ≤ length xs
      → Returns (λ r t. IsSpace owner t) (load_space pgdir binary s)
  unfolding load_space
  load_space-IsSpace owner s xs image w root room =
      let first : e_phoff binary 0 ≡ header binary 0 = omega arith in
      rw first (
        Returns-and_then (λ r t. give_page pgdir (ustacktop - page_size) (alloc_page 1 t))
          (load_segments-IsFilled binary image pgdir (e_phnum binary 0) 0 owner s xs w root
            (omega arith) (omega arith))
          (λ r t filled.
            give_page-IsSpace image owner s xs t filled root filled.left filled.tables refl
              (omega (arith, filled.enough))))

-- The process p after `load_img`: its address space, where it starts and its stack; the other processes stay.
pub record IsProgram (binary : ℕ → ℕ) (owner : Owner) (p pgdir : ℕ) (s t : System) : Type 0 where
  pub space : IsSpace binary pgdir owner t.mm
  pub root : (t.procs p).pgdir ≡ some pgdir
  pub rip : (t.procs p).pregs reg_rip ≡ e_entry binary 0
  pub rsp : (t.procs p).pregs reg_rsp ≡ ustacktop
  pub regs : (i : ℕ) → i ≢ reg_rip → i ≢ reg_rsp → (t.procs p).pregs i ≡ (s.procs p).pregs i
  pub fdtable : (fd : ℕ) → (t.procs p).fdtable fd ≡ (s.procs p).fdtable fd
  pub others : (q : ℕ) → p ≢ q → t.procs q ≡ s.procs q

start_at-IsProgram :
    (binary : ℕ → ℕ) (owner : Owner) (p pgdir : ℕ) (s : System) (m : Mm)
    → (s.procs p).pgdir ≡ some pgdir
    → IsSpace binary pgdir owner m
    → IsProgram binary owner p pgdir s (start_at p binary (record s { mm = m }))
unfolding start_at
start_at-IsProgram binary owner p pgdir s m here space = record {
  space = space;
  root = ground (arith, here);
  rip = ground arith;
  rsp = ground arith;
  regs = λ i ne ne'. ground (arith, ne, ne');
  fdtable = λ fd. ground arith;
  others = λ q ne. ground (arith, ne);
}

started-IsProgram :
    (binary : ℕ → ℕ) (owner : Owner) (p pgdir : ℕ) (s : System) (r : Res Mm ℤ)
    → (s.procs p).pgdir ≡ some pgdir
    → Returns (λ z t. IsSpace binary pgdir owner t) r
    → Returns
        (λ z t. IsProgram binary owner p pgdir s t)
        (and_then (lift_mm r s) (λ z t. ok (pos 0) (start_at p binary t)))
started-IsProgram binary owner p pgdir s (ok z m) here (returns space) =
    returns (start_at-IsProgram binary owner p pgdir s m here space)
started-IsProgram binary owner p pgdir s fault here none_returned = elim none_returned [ ]

-- An image whose segments do not share pages, with four free pages for each of its pages and for the stack, is
-- loaded: `load_img` returns, at the address of each byte of each segment the process finds the byte of the image,
-- in a page that is present, the stack has a clear page of its own, and rip and rsp are the entry point and the
-- stack's top.
pub load_img-IsProgram :
    (binary : ℕ → ℕ) (owner : Owner) (s : System) (xs : List ℕ) (p pgdir : ℕ)
    → IsImage binary
    → IsTables owner s.mm xs
    → (s.procs p).pgdir ≡ some pgdir
    → owner pgdir ≡ some (place pgdir 0 0)
    → 4 * needed binary (e_phnum binary 0) 0 + 4 ≤ length xs
    → Returns (λ r t. IsProgram binary owner p pgdir s t) (load_img p binary s)
unfolding load_img load_in
load_img-IsProgram binary owner s xs p pgdir image w here root room =
    rw (image.elf, here)
      (started-IsProgram binary owner p pgdir s (load_space pgdir binary s.mm) here
        (load_space-IsSpace binary pgdir owner s.mm xs image w root room))
