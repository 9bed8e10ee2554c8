-- ===== src/Mm/Walk/Remove.antt =====
-- `walk_page` without `create`, and `remove_page`.
use mathlib.Core.Path.{subst}
use mathlib.Core.Option
use myos_git.Prelude.{
  ℕ, zero, suc, ◌/◌, ◌%◌, ◌^◌, ◌<◌, ◌≡◌, refl, sym, ap, ◌∙◌, ◌≢◌, ◌⊎◌, inl, inr, true, false,
  Option, none, some, List, ◌∷◌, arith, ◌==◌, has, All, Option-cases,
}
use myos_git.Prelude.Int.{ℤ, pos}
use myos_git.Mm.State.{Mm, ok, set_word, Returns, returns}
use myos_git.Mm.Frames.{IsPut, freed, free_page-IsFree}
use myos_git.Mm.Tables.{Owner, place, entry_at, IsForest, UserAddress, present-zero}
use myos_git.Mm.Tables.Leaf.{
  table_from, table_from-place, entry_from-none, entry_from-some, leaf_path, written-IsForest,
  written-entry_from_ne, written-entry_from,
}
use myos_git.Mm.Walk.{IsTables}
use myos_git.Mm.Walk.Enter.{other_page}
use myos_git.Mm.Walk.Insert.{slot_of}
use myos_git.Mm.{
  frame_of, present, level_index, walk_dir, walk_page, clear_slot, remove_page, free_page,
  drop_entry, set_entry, tlb_invalid,
}

-- Without `create` the walk reads: it returns the slot if every level is present, else -1, and the
-- state is as before.
pub walk_page-eq-table_from :
    (pgdir va : ℕ) (s : Mm)
    → walk_page pgdir va 0 s ≡ ok (Option.map (slot_of va) (table_from 3 s.mem pgdir va)) s
unfolding walk_page walk_dir table_from
walk_page-eq-table_from pgdir va s = ground arith

-- What `remove_page` has done to the state `s` in which `xs` were free and the entry mapped the page
-- `p` with `n + 1` references.
pub record IsRemoved (owner : Owner) (s : Mm) (xs : List ℕ) (pgdir va p n : ℕ) (r : ℤ) (t : Mm)
    : Type 0 where
  pub success : r ≡ pos 0
  pub tables : IsTables owner t (freed p n xs)
  pub counted : (t.pages p).count ≡ pos n
  pub entry_cleared : entry_at t.mem pgdir va ≡ 0
  pub others :
      (pgdir' va' : ℕ)
      → owner pgdir' ≡ some (place pgdir' 0 0)
      → UserAddress va'
      → (pgdir' ≢ pgdir) ⊎ (va' / 2 ^ 12 % 2 ^ 36 ≢ va / 2 ^ 12 % 2 ^ 36)
      → entry_at t.mem pgdir' va' ≡ entry_at s.mem pgdir' va'
  pub frames : (q : ℕ) → owner q ≡ none → t.mem q ≡ s.mem q
  pub invalidated : t.flushed ≡ va ∷ s.flushed

drop_entry-present :
    (e : ℕ) (s : Mm) → present e ≡ true → drop_entry e s ≡ free_page (some (frame_of e)) s
unfolding drop_entry
drop_entry-present e s here = rw here

flushed-free_page : (p : Option ℕ) (s : Mm) → (free_page p s).flushed ≡ s.flushed
unfolding free_page
flushed-free_page none s = refl
flushed-free_page (some p) s = ground arith

module _ (owner : Owner) (s : Mm) (xs : List ℕ) (pgdir va n : ℕ) (w : IsTables owner s xs)
    (root : owner pgdir ≡ some (place pgdir 0 0)) (user : UserAddress va) where
  abbrev mapped : ℕ
  mapped = frame_of (entry_at s.mem pgdir va)

  unowned_freed : (m : ℕ) → owner mapped ≡ none → All (λ q. owner q ≡ none) (freed mapped m xs)
  unowned_freed zero h = (h, w.unowned)
  unowned_freed (suc m) h = w.unowned

  clear-IsRemoved :
      (g : ℕ) (u : Mm)
      → table_from 3 s.mem pgdir va ≡ some g
      → owner mapped ≡ none
      → IsPut s mapped xs n u
      → u.flushed ≡ s.flushed
      → IsRemoved owner s xs pgdir va mapped n
          (pos 0)
          (tlb_invalid va (set_word g (level_index 0 va) 0 u))
  unfolding tlb_invalid
  clear-IsRemoved g u found data_page put flushed =
      let same = put.2 in
      let forest : IsForest owner u.mem = subst (IsForest owner) (sym same) w.forest in
      let found' : table_from 3 u.mem pgdir va ≡ some g =
        ap (λ m. table_from 3 m pgdir va) same ∙ found in
      let at =
        table_from-place 3 owner u.mem pgdir va pgdir 0 0 g forest root refl (λ _. user) found' in
      let apart : (q : ℕ) → owner q ≡ none → g ≢ q = λ q plain e.
        cc (subst (λ f. owner f ≡ some (place pgdir 3 (leaf_path 3 0 va))) e at, plain) in
      record {
        success = refl;
        tables = record {
          free = record { chain = put.0.chain; distinct = put.0.distinct; unused = put.0.unused };
          forest =
              written-IsForest owner u.mem g pgdir (leaf_path 3 0 va) (level_index 0 va) 0 forest
                at;
          unowned = unowned_freed n data_page;
        };
        counted = put.1;
        entry_cleared =
            written-entry_from owner u.mem g pgdir (leaf_path 3 0 va) (level_index 0 va) 0 forest at
              3 pgdir va pgdir 0 0 root refl (λ _. user) found' refl;
        others = λ pgdir' va' root' user' apart.
            written-entry_from_ne owner u.mem g pgdir (leaf_path 3 0 va) (level_index 0 va) 0 forest
              at 3 pgdir' va' pgdir' 0 0 root' refl (λ _. user')
              (elim apart [ inl tree ↦ inl tree | inr page ↦ inr (other_page va va' page) ])
            ∙ ap (λ m. entry_at m pgdir' va') same;
        frames = λ q plain.
            let other : (g == q) ≡ false = ground (arith, apart q plain) in
            rw other (ap (λ m. m q) same);
        invalidated = ap (λ l. va ∷ l) flushed;
      }

  remove_found :
      (g : ℕ)
      → table_from 3 s.mem pgdir va ≡ some g
      → present (entry_at s.mem pgdir va) ≡ true
      → s.mem g (level_index 0 va) ≡ entry_at s.mem pgdir va
      → owner mapped ≡ none
      → IsPut s mapped xs n (free_page (some mapped) s)
      → Returns (IsRemoved owner s xs pgdir va mapped n) (clear_slot va (some (slot_of va g)) s)
  unfolding clear_slot tlb_invalid
  remove_found g found here same data_page put =
      let dropped : drop_entry (s.mem g (level_index 0 va)) s ≡ free_page (some mapped) s =
        ap (λ e. drop_entry e s) same ∙ drop_entry-present (entry_at s.mem pgdir va) s here in
      subst
        (λ u. Returns (IsRemoved owner s xs pgdir va mapped n) (set_entry va (slot_of va g) 0 u))
        (sym dropped)
        (returns (
          clear-IsRemoved g (free_page (some mapped) s) found data_page put
            (flushed-free_page (some mapped) s)))

  -- `remove_page` of a user address whose entry maps a counted page that holds no table: the entry
  -- is cleared, the page loses one reference and is free exactly if that was the last, the entries
  -- of all other pages and address spaces stay, and the address is flushed from the TLB.
  pub remove_page-IsRemoved :
      present (entry_at s.mem pgdir va) ≡ true
      → mapped < 2 ^ 52
      → has mapped xs ≡ false
      → owner mapped ≡ none
      → (s.pages mapped).count ≡ pos (suc n)
      → Returns (IsRemoved owner s xs pgdir va mapped n) (remove_page pgdir va s)
  unfolding remove_page
  remove_page-IsRemoved here small out data_page counted =
      rw (walk_page-eq-table_from pgdir va s) (elim (Option-cases (table_from 3 s.mem pgdir va)) [
        | inl missing ↦
            let e = ap present (entry_from-none 3 s.mem pgdir va missing) in
            cc (e, here, present-zero)
        | inr (g, found) ↦ rw found (
            remove_found g found here (sym (entry_from-some 3 s.mem pgdir va g found)) data_page
              (free_page-IsFree mapped n w.free out small counted))
      ])
