-- ===== src/Proc/Space/Shared.antt =====
-- A page of the parent shared with its child by `sys_fork` of kernel/proc.c.
use myos_git.Prelude.{
  ℕ, ◌+◌, ◌*◌, ◌/◌, ◌%◌, ◌^◌, ◌≤◌, ◌<◌, ◌≡◌, ◌≢◌, ◌⊎◌, refl, sym, ap, ◌∙◌, inl, inr, false, none,
  some, List, arith, bit_or, length, has, update, ◌==◌,
}
use myos_git.Prelude.Int.{ℤ, pos, inc}
use myos_git.Prelude.Result.{Returns, returns, Returns-and_then}
use myos_git.Mm.State.{Mm, Page, set_word}
use myos_git.Mm.{page2pa, frame_of, level_index, tlb_invalid, page_size}
use myos_git.Mm.Frames.{Chain-update, Unused-update}
use myos_git.Mm.Tables.{Owner, place, entry_at, UserAddress, page2pa-eq-mul}
use myos_git.Mm.Tables.Leaf.{
  table_from, table_from-place, entry_from-some, leaf_path, written-IsForest, written-entry_from,
  written-entry_from_ne,
}
use myos_git.Mm.Walk.{IsTables, Extends}
use myos_git.Mm.Walk.Enter.{other_page}
use myos_git.Mm.Walk.Insert.{IsInserted, insert_page-IsInserted}
use myos_git.Mm.Walk.Remove.{walk_page-eq-table_from}
use myos_git.Proc.Space.{share_page, cow_flags}

-- The page pp is read by both at the address, copied on a write of either; it has one reference more and the same
-- content, and no other entry of any address space has changed.
pub record IsShared (owner : Owner) (s : Mm) (xs : List ℕ) (parent child addr pp : ℕ) (r : ℤ)
    (t : Mm) : Type 0 where
  pub success : r ≡ pos 0
  pub owner' : Owner
  pub left : List ℕ
  pub tables : IsTables owner' t left
  pub extends : Extends owner owner'
  pub enough : length xs ≤ length left + 3
  pub of_parent : entry_at t.mem parent addr ≡ bit_or (page2pa pp) cow_flags
  pub of_child : entry_at t.mem child addr ≡ bit_or (page2pa pp) cow_flags
  pub counted : (t.pages pp).count ≡ inc (s.pages pp).count
  pub content : (j : ℕ) → t.mem pp j ≡ s.mem pp j
  pub others :
      (pgdir' va' : ℕ)
      → owner pgdir' ≡ some (place pgdir' 0 0)
      → UserAddress va'
      → ((pgdir' ≢ parent) × (pgdir' ≢ child)) ⊎ (va' / 2 ^ 12 % 2 ^ 36 ≢ addr / 2 ^ 12 % 2 ^ 36)
      → entry_at t.mem pgdir' va' ≡ entry_at s.mem pgdir' va'

module _ (owner : Owner) (s : Mm) (xs : List ℕ) (parent child addr g : ℕ) (w : IsTables owner s xs)
    (root_p : owner parent ≡ some (place parent 0 0))
    (root_c : owner child ≡ some (place child 0 0)) (apart : parent ≢ child)
    (user : UserAddress addr) (room : 3 ≤ length xs)
    (found : table_from 3 s.mem parent addr ≡ some g) where
  abbrev index : ℕ
  index = level_index 0 addr

  abbrev word : ℕ
  word = s.mem g index

  abbrev pp : ℕ
  pp = frame_of word

  abbrev entry : ℕ
  entry = bit_or (page2pa pp) cow_flags

  -- After the insertion for the child.
  module _ (small : pp < 2 ^ 52) (in_use : has pp xs ≡ false) (data_page : owner pp ≡ none) (r : ℤ)
      (t : Mm) (h : IsInserted owner s xs child addr entry r t) where
    found_t : table_from 3 t.mem parent addr ≡ some g
    found_t = h.paths parent addr g root_p user found

    word_kept : t.mem g index ≡ word
    word_kept =
        sym (entry_from-some 3 t.mem parent addr g found_t)
        ∙ h.others parent addr root_p user (inl apart)
        ∙ entry_from-some 3 s.mem parent addr g found

    place_g : h.owner' g ≡ some (place parent 3 (leaf_path 3 0 addr))
    place_g =
        table_from-place 3 h.owner' t.mem parent addr parent 0 0 g h.tables.forest
          (h.extends parent _ root_p) refl (λ e. user) found_t

    new_word : bit_or (t.mem g index / page_size * page_size) cow_flags ≡ entry
    new_word = rw word_kept (
        let base : word / page_size * page_size ≡ page2pa pp =
          sym (page2pa-eq-mul pp small) ∙ refl in
        ap (λ b. bit_or b cow_flags) base)

    abbrev counted_page : Page
    counted_page = record (t.pages pp) { count = inc (t.pages pp).count }

    abbrev shared_memory : Mm
    shared_memory =
        tlb_invalid addr
          (set_word g index entry (record t { pages = update t.pages pp counted_page }))

    entry-IsShared : IsShared owner s xs parent child addr pp (pos 0) shared_memory
    unfolding tlb_invalid
    entry-IsShared =
        let out : has pp h.left ≡ false = h.fewer pp in_use in
        let forest = h.tables.forest in
        record {
          success = refl;
          owner' = h.owner';
          left = h.left;
          tables = record {
            free = record {
              chain = Chain-update t.pages t.phead pp counted_page h.left out h.tables.free.chain;
              distinct = h.tables.free.distinct;
              unused = Unused-update t.pages pp counted_page h.left out h.tables.free.unused;
            };
            forest = record {
              child =
                  (written-IsForest h.owner' t.mem g parent (leaf_path 3 0 addr) index entry forest
                    place_g).child;
            };
            unowned = h.tables.unowned;
          };
          extends = h.extends;
          enough = h.enough;
          of_parent =
              written-entry_from h.owner' t.mem g parent (leaf_path 3 0 addr) index entry forest
                place_g 3 parent addr parent 0 0 (h.extends parent _ root_p) refl (λ e. user)
                found_t refl;
          of_child =
              written-entry_from_ne h.owner' t.mem g parent (leaf_path 3 0 addr) index entry forest
                place_g 3 child addr child 0 0 (h.extends child _ root_c) refl (λ e. user)
                (inl (λ e. apart (sym e)))
              ∙ h.entry_set;
          counted = ground (arith, h.pages pp in_use);
          content = λ j.
              let unowned : h.owner' pp ≡ none = h.same_owner pp in_use ∙ data_page in
              let kept = h.frames pp j in_use data_page in ground (arith, kept, unowned, place_g);
          others = λ pgdir' va' root' user' ne.
              written-entry_from_ne h.owner' t.mem g parent (leaf_path 3 0 addr) index entry forest
                place_g 3 pgdir' va' pgdir' 0 0 (h.extends pgdir' _ root') refl (λ e. user')
                (elim ne [ inl (np, nc) ↦ inl np | inr page ↦ inr (other_page addr va' page) ])
              ∙ h.others pgdir' va' root' user'
                  (elim ne [ inl (np, nc) ↦ inl nc | inr page ↦ inr page ]);
        }

  -- A page of the parent that is in use, whose frame holds no table: with three free pages, the loop's body for its
  -- address leaves parent and child with the same entry for it, to be read and not written, counts the child's
  -- reference, and changes neither the page's content nor any other entry of any address space.
  pub share_page-IsShared :
      (word == 0) ≡ false
      → pp < 2 ^ 52
      → has pp xs ≡ false
      → owner pp ≡ none
      → Returns (IsShared owner s xs parent child addr pp) (share_page parent child addr s)
  unfolding share_page
  share_page-IsShared some_word small in_use data_page =
      rw (walk_page-eq-table_from parent addr s, found, some_word)
        (Returns-and_then _
          (insert_page-IsInserted owner s xs child addr w root_c user room pp cow_flags)
          (λ r t h.
            rw (h.success, new_word small in_use data_page r t h)
              (returns (entry-IsShared small in_use data_page r t h))))
