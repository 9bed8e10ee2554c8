-- ===== src/Mm/Walk/Insert.antt =====
-- `walk_page` and `insert_page` against the level-by-level walk.
use mathlib.Core.Path.{fun_ext}
use myos_git.Prelude.{
  ℕ, ◌+◌, ◌/◌, ◌%◌, ◌^◌, ◌≤◌, ◌≡◌, refl, sym, ap, ◌∙◌, ◌≢◌, ◌⊎◌, inl, inr, false, Option, none,
  some, List, [], ◌∷◌, arith, length, has, Bool-cases, bit_or,
}
use myos_git.Prelude.Int.{ℤ, pos}
use myos_git.Mm.State.{
  set_word, Mm, Run, ok, and_then, and_then_assoc, ◌>>=◌, Returns, returns, Returns-and_then,
}
use myos_git.Mm.Tables.{Owner, place, entry_at, UserAddress, present-zero}
use myos_git.Mm.Walk.{IsTables, Extends, new_table-eq-made, new_table-nil, made-clear}
use myos_git.Mm.Walk.Descend.{
  descend, descend-present, descend-absent, Descended, descend-Descended,
}
use myos_git.Mm.Tables.Leaf.{table_from}
use myos_git.Mm.Walk.Enter.{IsEntered, set_word-IsEntered}
use myos_git.Mm.{
  tlb_invalid, Slot, new_table, page2pa, present, level_index, walk_dir, walk_pdp, walk_page,
  fill_slot, insert_page,
}

abbrev pub slot_of : ℕ → ℕ → Slot
slot_of va g = record { table = g; index = level_index 0 va }

abbrev found_slot : ℕ → ℕ → Mm → Run (Option Slot)
found_slot va g = ok (some (slot_of va g))

walk_dir-eq-descend :
    (pdpt va : ℕ) (s : Mm) → walk_dir pdpt va 1 s ≡ and_then (descend 1 pdpt va s) (found_slot va)
unfolding walk_dir descend
walk_dir-eq-descend pdpt va s = elim (Bool-cases (present (s.mem pdpt (level_index 1 va)))) [
  | inl here ↦ rw here
  | inr absent ↦
      rw absent
        (sym (and_then_assoc (new_table pdpt (level_index 1 va) s) (λ g. ok g) (found_slot va)))
]

walk_pdp-eq-descend :
    (pml4 va : ℕ) (s : Mm) → walk_pdp pml4 va 1 s ≡ and_then (descend 2 pml4 va s) (found_slot va)
unfolding walk_pdp
walk_pdp-eq-descend pml4 va s = elim (Bool-cases (present (s.mem pml4 (level_index 2 va)))) [
  | inl here ↦ rw (here, descend-present 1 pml4 va s here) (walk_dir-eq-descend _ va s)
  | inr absent ↦ rw absent (
      ap (and_then (new_table pml4 (level_index 2 va) s))
        (fun_ext λ g. fun_ext λ t. walk_dir-eq-descend g va t)
      ∙ sym (
          and_then_assoc (new_table pml4 (level_index 2 va) s) (λ g. descend 1 g va)
            (found_slot va))
      ∙ ap (λ r. and_then r (found_slot va)) (sym (descend-absent 1 pml4 va s absent)))
]

-- Where the PML4 entry is absent, the new PML4's table is empty, so `walk_page` need not look at it.
walk_new :
    (p va : ℕ) (s : Mm)
    → ((j : ℕ) → s.mem p j ≡ 0)
    → and_then (new_table p (level_index 2 va) s) (λ g. walk_dir g va 1)
      ≡ and_then (descend 2 p va s) (found_slot va)
walk_new p va s clear = walk_pdp_absent ∙ walk_pdp-eq-descend p va s
  where
    walk_pdp_absent :
        and_then (new_table p (level_index 2 va) s) (λ g. walk_dir g va 1) ≡ walk_pdp p va 1 s
    walk_pdp_absent = unfold walk_pdp in rw (clear (level_index 2 va), present-zero)

-- `walk_page` with `create` set, whose nesting differs from branch to branch, is the uniform walk of
-- three levels that makes each level that is absent; this holds also when the free pages run out.
pub walk_page-eq-descend :
    (owner : Owner) (s : Mm) (xs : List ℕ) (pgdir va : ℕ)
    → IsTables owner s xs
    → owner pgdir ≡ some (place pgdir 0 0)
    → walk_page pgdir va 1 s
      ≡ (descend 3 pgdir va >>= λ g. ok (some (record { table = g; index = level_index 0 va }))) s
unfolding walk_page
walk_page-eq-descend owner s xs pgdir va w root =
    elim (Bool-cases (present (s.mem pgdir (level_index 3 va)))) [
      | inl here ↦ rw (here, descend-present 2 pgdir va s here) (walk_pdp-eq-descend _ va s)
      | inr absent ↦ rw (absent, descend-absent 2 pgdir va s absent) (made_or_fault absent xs w)
    ]
  where
    made_or_fault :
        present (s.mem pgdir (level_index 3 va)) ≡ false
        → (ys : List ℕ) → IsTables owner s ys
        → and_then
            (new_table pgdir (level_index 3 va) s)
            (λ p t. and_then (new_table p (level_index 2 va) t) (λ g. walk_dir g va 1))
          ≡ and_then
              (and_then (new_table pgdir (level_index 3 va) s) (λ g. descend 2 g va))
              (found_slot va)
    made_or_fault absent [] v = rw (new_table-nil v.free pgdir (level_index 3 va))
    made_or_fault absent (p ∷ ys) v = rw (new_table-eq-made v.free pgdir (level_index 3 va)) (
        walk_new p va _
          (made-clear owner s pgdir pgdir 0 0 (level_index 3 va) p ys v root (omega arith) absent))

-- What `insert_page` has done to the state `s` in which `xs` were free.
pub record IsInserted (owner : Owner) (s : Mm) (xs : List ℕ) (pgdir va entry : ℕ) (r : ℤ) (t : Mm)
    : Type 0 where
  pub success : r ≡ pos 0
  pub owner' : Owner
  pub left : List ℕ
  pub tables : IsTables owner' t left
  pub extends : Extends owner owner'
  pub enough : length xs ≤ length left + 3
  pub fewer : (q : ℕ) → has q xs ≡ false → has q left ≡ false
  pub pages : (q : ℕ) → has q xs ≡ false → t.pages q ≡ s.pages q
  pub same_owner : (q : ℕ) → has q xs ≡ false → owner' q ≡ owner q
  pub frames : (q j : ℕ) → has q xs ≡ false → owner q ≡ none → t.mem q j ≡ s.mem q j
  pub entry_set : entry_at t.mem pgdir va ≡ entry
  pub others :
      (pgdir' va' : ℕ)
      → owner pgdir' ≡ some (place pgdir' 0 0)
      → UserAddress va'
      → (pgdir' ≢ pgdir) ⊎ (va' / 2 ^ 12 % 2 ^ 36 ≢ va / 2 ^ 12 % 2 ^ 36)
      → entry_at t.mem pgdir' va' ≡ entry_at s.mem pgdir' va'
  pub paths :
      (pgdir' va' g : ℕ)
      → owner pgdir' ≡ some (place pgdir' 0 0)
      → UserAddress va'
      → table_from 3 s.mem pgdir' va' ≡ some g
      → table_from 3 t.mem pgdir' va' ≡ some g
  pub invalidated : t.flushed ≡ va ∷ s.flushed

module _ (owner : Owner) (s : Mm) (xs : List ℕ) (pgdir va : ℕ) (w : IsTables owner s xs)
    (root : owner pgdir ≡ some (place pgdir 0 0)) (user : UserAddress va)
    (room : 3 ≤ length xs) where
  entered-IsInserted :
      (entry : ℕ) (t : Mm)
      → IsEntered owner s xs pgdir va entry t
      → IsInserted owner s xs pgdir va entry (pos 0) (tlb_invalid va t)
  unfolding tlb_invalid
  entered-IsInserted entry t e = record {
    success = refl;
    owner' = e.owner';
    left = e.left;
    tables = record {
      free = record {
        chain = e.tables.free.chain;
        distinct = e.tables.free.distinct;
        unused = e.tables.free.unused;
      };
      forest = record { child = e.tables.forest.child };
      unowned = e.tables.unowned;
    };
    extends = e.extends;
    enough = e.enough;
    fewer = e.fewer;
    pages = e.pages;
    same_owner = e.same_owner;
    frames = e.frames;
    entry_set = e.entry_set;
    others = e.others;
    paths = e.paths;
    invalidated = ap (λ l. va ∷ l) e.flushed;
  }

  -- The walk of `walk_page` with `create` set, and what a write of the entry that it finds leaves.
  pub walk_page-IsEntered :
      Returns
        (λ o t.
          (g : ℕ) × (o ≡ some (slot_of va g))
          × ((entry : ℕ)
              → IsEntered owner s xs pgdir va entry (set_word g (level_index 0 va) entry t)))
        (walk_page pgdir va 1 s)
  walk_page-IsEntered = rw (walk_page-eq-descend owner s xs pgdir va w root) (
      Returns-and_then (λ g. ok (some (slot_of va g)))
        (descend-Descended 3 owner s xs pgdir va pgdir 0 0 w root refl (λ _. user) room)
        (λ g t de. returns (
          g,
          refl,
          λ entry. set_word-IsEntered owner s xs pgdir va entry g t root user w.forest de,
        )))

  fill_slot-IsInserted :
      (pp flag g : ℕ) (t : Mm)
      → Descended owner s xs 3 pgdir va pgdir 0 g t
      → Returns
          (IsInserted owner s xs pgdir va (bit_or (page2pa pp) flag))
          (fill_slot va pp flag (some (slot_of va g)) t)
  unfolding fill_slot
  fill_slot-IsInserted pp flag g t de = returns (
      entered-IsInserted _ _ (
        set_word-IsEntered owner s xs pgdir va (bit_or (page2pa pp) flag) g t root user w.forest
          de))

  -- With three free pages, `insert_page` of a user address succeeds: the address gets the entry, the
  -- entries of all other pages and of all other address spaces stay, the tables and the free list
  -- stay well formed, the pages that were not free keep their counts, and the address is flushed from the TLB.
  pub insert_page-IsInserted :
      (pp flag : ℕ)
      → Returns
          (IsInserted owner s xs pgdir va (bit_or (page2pa pp) flag))
          (insert_page pgdir va (some pp) flag s)
  unfolding insert_page
  insert_page-IsInserted pp flag =
      rw
        (
          walk_page-eq-descend owner s xs pgdir va w root,
          and_then_assoc (descend 3 pgdir va s) (found_slot va) (λ slot. fill_slot va pp flag slot),
        )
        (Returns-and_then (λ g. fill_slot va pp flag (some (slot_of va g)))
          (descend-Descended 3 owner s xs pgdir va pgdir 0 0 w root refl (λ _. user) room)
          (λ g t de. fill_slot-IsInserted pp flag g t de))
