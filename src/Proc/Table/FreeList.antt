-- ===== src/Proc/Table/FreeList.antt =====
-- The free process control blocks as a list.
use mathlib.Core.Path.{subst}
use myos_git.Prelude.{
  ℕ, ◌<◌, ◌≡◌, ◌≢◌, refl, sym, true, false, Option, none, some, List, [], ◌∷◌, arith, ◌==◌, update,
  has, Distinct, All, range,
}
use myos_git.Prelude.Result.{Returns, returns}
use myos_git.Proc.State.{Proc, System, stop}
use myos_git.Proc.Table.{link_procs, init_proc, new_proc, alloc_from, alloc_proc, free_proc}

-- From `h` the links lead through the blocks `xs` to NULL.
abbrev pub Chain : (ℕ → Proc) → Option ℕ → List ℕ → Type 0
Chain procs h [] = h ≡ none
Chain procs h (p ∷ xs) = (h ≡ some p) × Chain procs (procs p).link xs

-- `xs` are the free blocks, in their order, each of them in the table and none twice.
pub record IsFreeList (s : System) (xs : List ℕ) : Type 0 where
  pub chain : Chain s.procs s.proc_head xs
  pub distinct : Distinct xs
  pub inside : All (λ p. p < 10) xs

Chain-update :
    (procs : ℕ → Proc) (h : Option ℕ) (p : ℕ) (v : Proc) (xs : List ℕ)
    → has p xs ≡ false
    → Chain procs h xs
    → Chain (update procs p v) h xs
Chain-update procs h p v [] out c = c
Chain-update procs h p v (x ∷ xs) out c = ground (arith, Chain-update procs (procs x).link p v xs)

-- What `alloc_proc` did when it returned the block `p` with `xs` left free.
pub record IsAllocated (s : System) (p : ℕ) (xs : List ℕ) (r : ℕ) (t : System) : Type 0 where
  pub result : r ≡ p
  pub free : IsFreeList t xs
  pub registers : ((t.procs p).rax ≡ 0) × ((i : ℕ) → (t.procs p).pregs i ≡ 0)
  pub identity : ((t.procs p).pid ≡ p) × ((t.procs p).ppid ≡ 0)
  pub stopped : (t.procs p).status ≡ stop
  pub unlinked : (t.procs p).link ≡ none
  pub no_tables : (t.procs p).pgdir ≡ none
  pub no_files : (fd : ℕ) → (t.procs p).fdtable fd ≡ none
  pub others : (q : ℕ) → q ≢ p → t.procs q ≡ s.procs q
  pub rest : t ≡ record s { procs = t.procs; proc_head = t.proc_head }

-- `alloc_proc` takes the first free block: its registers, its parent, its link, its page tables and its
-- files are zero or NULL, its pid is its index and its status STOP. The other free blocks stay free in
-- their order, and nothing else changes.
pub alloc_proc-IsAllocated :
    (s : System) (p : ℕ) (xs : List ℕ)
    → IsFreeList s (p ∷ xs)
    → Returns (IsAllocated s p xs) (alloc_proc s)
unfolding alloc_proc alloc_from
alloc_proc-IsAllocated s p xs f =
    let self : (p == p) ≡ true = ground arith in
    subst (λ h. Returns (IsAllocated s p xs) (alloc_from h s)) (sym f.chain.0)
      (returns (record {
        result = refl;
        free = record {
          chain = Chain-update s.procs (s.procs p).link p (new_proc p) xs f.distinct.0 f.chain.1;
          distinct = f.distinct.1;
          inside = f.inside.1;
        };
        registers = (rw self refl, λ i. rw self refl);
        identity = (rw self refl, rw self refl);
        stopped = rw self refl;
        unlinked = rw self refl;
        no_tables = rw self refl;
        no_files = λ fd. rw self refl;
        others = λ q ne. let e : (p == q) ≡ false = ground arith in rw e;
        rest = refl;
      }))

-- `free_proc` puts a block that is not free in front of the free blocks.
pub free_proc-IsFreeList :
    (s : System) (p : ℕ) (xs : List ℕ)
    → IsFreeList s xs
    → has p xs ≡ false
    → p < 10
    → IsFreeList (free_proc p s) (p ∷ xs)
unfolding free_proc
free_proc-IsFreeList s p xs f out small =
    let self : (p == p) ≡ true = ground arith in
    record {
      chain = (refl, rw self (Chain-update s.procs s.proc_head p _ xs out f.chain));
      distinct = (out, f.distinct);
      inside = (small, f.inside);
    }

-- `init_proc` makes all ten blocks free, in the order of their indices, whatever the table held.
pub init_proc-IsFreeList : (s : System) → IsFreeList (init_proc s) (range 0 10)
unfolding init_proc link_procs
init_proc-IsFreeList s = record {
  chain = (refl, (refl, (refl, (refl, (refl, (refl, (refl, (refl, (refl, (refl, refl))))))))));
  distinct = (refl, (refl, (refl, (refl, (refl, (refl, (refl, (refl, (refl, (refl, tt))))))))));
  inside = (
    omega arith,
    (
      omega arith,
      (
        omega arith,
        (
          omega arith,
          (
            omega arith,
            (omega arith, (omega arith, (omega arith, (omega arith, (omega arith, tt))))),
          ),
        ),
      ),
    ),
  );
}
