-- ===== src/Vmx/Memory/Guest.antt =====
-- The address space that `sys_alloc_vm_mem` of kernel/amd64/vmx.c gives the guest.
use mathlib.Core.Path.{subst}
use myos_git.Prelude.{
  ℕ, zero, suc, ◌+◌, ◌*◌, ◌^◌, ◌≤◌, ◌<◌, ◌≡◌, ◌≢◌, ◌%◌, ◌/◌, ◌-◌, ◌⊎◌, refl, sym, ap, ◌∙◌, inl, inr,
  true, none, some, List, arith, bit_or, length, has,
}
use myos_git.Prelude.Int.{pos}
use myos_git.Prelude.Result.{ok, and_then, Returns, returns, Returns-and_then}
use myos_git.Mm.State.{Mm, set_word}
use myos_git.Mm.{Slot, page2pa, page_size, alloc_page}
use myos_git.Mm.Tables.{Owner, place, entry_at, UserAddress}
use myos_git.Mm.Walk.{IsTables}
use myos_git.Mm.Walk.Enter.{IsEntered}
use myos_git.Mm.Walk.Insert.{walk_page-IsEntered, slot_of}
use myos_git.Mm.Walk.Range.{enter_new, map_range, IsRange, low-UserAddress}
use myos_git.Mm.Walk.Range.Whole.{map_range-IsRange, has-fewer}
use myos_git.Vmx.State.{Vmx, Returns-lift_mm}
use myos_git.Vmx.Memory.{
  map_guest, fill_guest, alloc_guest, sys_alloc_vm_mem, screen, screen_entry, high_pages,
}

-- The guest's address space over the table `ept`: the screen's entry at 0xb8000, and a page at each page address
-- below 0xa0000, and from 0x218000 on at each below `phys`. Each of these pages is cleared, was free, is no other
-- address's and holds no page table. The entries of the guest's other page addresses below
-- 2 ^ 47, and those of the user addresses of other address spaces, have not changed.
pub record IsGuest (owner : Owner) (s : Mm) (xs : List ℕ) (ept phys : ℕ) (t : Mm) : Type 0 where
  pub owner' : Owner
  pub left : List ℕ
  pub tables : IsTables owner' t left
  pub screen_set : entry_at t.mem ept 0xb8000 ≡ 0xb8047
  pub low : ℕ → ℕ
  pub high : ℕ → ℕ
  pub low_set :
      (k : ℕ) → k * 4096 < 0xa0000 → entry_at t.mem ept (k * 4096) ≡ bit_or (page2pa (low k)) 7
  pub high_set :
      (k : ℕ)
      → 0x218000 + k * 4096 < phys
      → entry_at t.mem ept (0x218000 + k * 4096) ≡ bit_or (page2pa (high k)) 7
  pub low_data :
      (k : ℕ)
      → k * 4096 < 0xa0000
      → (has (low k) xs ≡ true) × (owner' (low k) ≡ none) × ((j : ℕ) → t.mem (low k) j ≡ 0)
  pub high_data :
      (k : ℕ)
      → 0x218000 + k * 4096 < phys
      → (has (high k) xs ≡ true) × (owner' (high k) ≡ none) × ((j : ℕ) → t.mem (high k) j ≡ 0)
  pub low_once : (j k : ℕ) → j < k → k * 4096 < 0xa0000 → low j ≢ low k
  pub high_once : (j k : ℕ) → j < k → 0x218000 + k * 4096 < phys → high j ≢ high k
  pub low_high : (j k : ℕ) → j * 4096 < 0xa0000 → 0x218000 + k * 4096 < phys → low j ≢ high k
  pub no_more :
      (gpa : ℕ)
      → gpa < 2 ^ 47
      → gpa % 4096 ≡ 0
      → 0xa0000 ≤ gpa
      → (gpa < 0x218000) ⊎ (phys ≤ gpa)
      → gpa ≢ 0xb8000
      → entry_at t.mem ept gpa ≡ entry_at s.mem ept gpa
  pub others :
      (pgdir' va' : ℕ)
      → owner pgdir' ≡ some (place pgdir' 0 0)
      → UserAddress va'
      → pgdir' ≢ ept
      → entry_at t.mem pgdir' va' ≡ entry_at s.mem pgdir' va'

map_guest-eq-map_range :
    (n ept gpa : ℕ) (s : Mm) → map_guest n ept gpa s ≡ map_range 1 7 n ept gpa s
unfolding map_guest map_range
map_guest-eq-map_range zero ept gpa s = refl
map_guest-eq-map_range (suc n) ept gpa s = λ i.
    and_then (enter_new ept gpa 7 (alloc_page 1 s))
      (λ r t. map_guest-eq-map_range n ept (gpa + page_size) t i)

-- The three steps, from the first to the last state.
module _ (owner : Owner) (s : Mm) (xs : List ℕ) (ept phys : ℕ) (t u w : Mm)
    (root : owner ept ≡ some (place ept 0 0)) (bound : phys ≤ 2 ^ 46)
    (e : IsEntered owner s xs ept screen screen_entry t)
    (l : IsRange e.owner' t e.left ept 0 1 7 0xa0 u)
    (h : IsRange l.owner' u l.left ept 0x218000 1 7 (high_pages phys) w) where
  root_l : e.owner' ept ≡ some (place ept 0 0)
  root_l = e.extends ept _ root

  root_h : l.owner' ept ≡ some (place ept 0 0)
  root_h = l.extends ept _ root_l

  screen_kept : entry_at w.mem ept screen ≡ screen_entry
  screen_kept =
      h.others ept screen root_h (low-UserAddress screen (omega arith))
        (inr (λ k below clash. omega arith))
      ∙ l.others ept screen root_l (low-UserAddress screen (omega arith))
          (inr (λ k below clash. omega arith))
      ∙ e.entry_set

  low_kept : (k : ℕ) → k < 0xa0 → entry_at w.mem ept (k * page_size) ≡ bit_or (page2pa (l.page k)) 7
  low_kept k below =
      let first : 0 + k * page_size ≡ k * page_size = omega arith in
      h.others ept (k * page_size) root_h (low-UserAddress (k * page_size) (omega arith))
        (inr (λ j less clash. omega arith))
      ∙ ap (entry_at u.mem ept) (sym first)
      ∙ l.mapped k below

  was_free : (q : ℕ) → has q e.left ≡ true → has q xs ≡ true
  was_free q there = has-fewer xs e.left q (e.fewer q) there

  was_left : (q : ℕ) → has q l.left ≡ true → has q e.left ≡ true
  was_left q there = has-fewer e.left l.left q (l.fewer q) there

  low_page :
      (k : ℕ)
      → k < 0xa0
      → (has (l.page k) xs ≡ true)
        × (h.owner' (l.page k) ≡ none)
        × ((j : ℕ) → w.mem (l.page k) j ≡ 0)
  low_page k below = (
    was_free _ (l.taken k below).0,
    h.same_owner _ (l.taken k below).1 ∙ l.data_page k below,
    λ j. h.frames _ j (l.taken k below).1 (l.data_page k below) ∙ l.zeroed refl k j below,
  )

  high_page :
      (k : ℕ)
      → k < high_pages phys
      → (has (h.page k) xs ≡ true)
        × (h.owner' (h.page k) ≡ none)
        × ((j : ℕ) → w.mem (h.page k) j ≡ 0)
  high_page k below = (
    was_free _ (was_left _ (h.taken k below).0),
    h.data_page k below,
    λ j. h.zeroed refl k j below,
  )

  apart_pages : (j k : ℕ) → j < 0xa0 → k < high_pages phys → l.page j ≢ h.page k
  apart_pages j k lj hk clash =
      let gone = (l.taken j lj).1 in
      let there = (h.taken k hk).0 in cc (gone, there, ap (λ q. has q l.left) clash)

  filled-IsGuest : IsGuest owner s xs ept phys w
  filled-IsGuest = record {
    owner' = h.owner';
    left = h.left;
    tables = h.tables;
    screen_set = screen_kept;
    low = l.page;
    high = h.page;
    low_set = λ k below. low_kept k (omega arith);
    high_set = λ k below. h.mapped k (omega arith);
    low_data = λ k below. low_page k (omega arith);
    high_data = λ k below. high_page k (omega arith);
    low_once = λ j k less below. l.once j k less (omega arith);
    high_once = λ j k less below. h.once j k less (omega arith);
    low_high = λ j k lj hk. apart_pages j k (omega arith) (omega arith);
    no_more = λ gpa low aligned above out off.
        h.others ept gpa root_h (low-UserAddress gpa low) (
          inr (λ k below clash. elim out [
            | inl before ↦ absurd (omega arith)
            | inr after ↦ absurd (omega arith)
          ]))
        ∙ l.others ept gpa root_l (low-UserAddress gpa low) (inr (λ k below clash. omega arith))
        ∙ e.others ept gpa root (low-UserAddress gpa low) (inr (λ clash. off (omega arith)));
    others = λ pgdir' va' root' user' apart.
        h.others pgdir' va' (l.extends pgdir' _ (e.extends pgdir' _ root')) user' (inl apart)
        ∙ l.others pgdir' va' (e.extends pgdir' _ root') user' (inl apart)
        ∙ e.others pgdir' va' root' user' (inl apart);
  }

module _ (owner : Owner) (s : Mm) (xs : List ℕ) (ept phys : ℕ) (tables : IsTables owner s xs)
    (root : owner ept ≡ some (place ept 0 0)) (bound : phys ≤ 2 ^ 46)
    (room : 4 * (0xa0 + high_pages phys) + 3 ≤ length xs) where
  fill_guest-IsGuest :
      (slot : Slot) (t : Mm)
      → IsEntered owner s xs ept screen screen_entry (set_word slot.table slot.index screen_entry t)
      → Returns
          (λ r w. (r ≡ pos 0) × IsGuest owner s xs ept phys w)
          (fill_guest ept phys (some slot) t)
  unfolding fill_guest
  fill_guest-IsGuest slot t e =
      let t' = set_word slot.table slot.index screen_entry t in
      let root_l : e.owner' ept ≡ some (place ept 0 0) = e.extends ept _ root in
      rw (map_guest-eq-map_range 0xa0 ept 0 t') (
        Returns-and_then
          (λ r u. and_then (map_guest (high_pages phys) ept 0x218000 u) (λ r' w. ok (pos 0) w))
          (map_range-IsRange 0xa0 1 7 ept 0 e.owner' t' e.left e.tables root_l (omega arith)
            (omega (arith, e.enough)))
          (λ r u l. rw (map_guest-eq-map_range (high_pages phys) ept 0x218000 u) (
            Returns-and_then (λ r' w. ok (pos 0) w)
              (map_range-IsRange (high_pages phys) 1 7 ept 0x218000 l.owner' u l.left l.tables
                (l.extends ept _ root_l) (omega arith) (omega (arith, e.enough, l.enough)))
              (λ r' w h.
                returns (refl, filled-IsGuest owner s xs ept phys t' u w root bound e l h)))))

  alloc_guest-IsGuest :
      Returns (λ r t. (r ≡ pos 0) × IsGuest owner s xs ept phys t) (alloc_guest (some ept) phys s)
  unfolding alloc_guest
  alloc_guest-IsGuest =
      Returns-and_then (λ slot t. fill_guest ept phys slot t)
        (walk_page-IsEntered owner s xs ept screen tables root
          (low-UserAddress screen (omega arith)) (omega arith))
        (λ o t (g, found, entered).
          rw found (fill_guest-IsGuest (slot_of screen g) t (entered screen_entry)))

-- Over well-formed tables, for at most 2 ^ 46 bytes and with four free pages for each page of the
-- guest and three more, `sys_alloc_vm_mem` returns 0 and leaves the VMCS. Then the guest's entry at
-- 0xb8000 is 0xb8047, and each page address below 0xa0000, and from 0x218000 on each below `phys`, has
-- a page of its own that was free and is cleared and no page table. The entries of the guest's other
-- page addresses below 2 ^ 47 stay, and those of the user addresses of other address spaces.
pub sys_alloc_vm_mem-IsGuest :
    (owner : Owner) (v : Vmx) (xs : List ℕ) (ept phys : ℕ)
    → v.ept_pgdir ≡ some ept
    → IsTables owner v.mm xs
    → owner ept ≡ some (place ept 0 0)
    → phys ≤ 2 ^ 46
    → 4 * (0xa0 + (phys - 0x218000 + 4095) / 4096) + 3 ≤ length xs
    → Returns
        (λ r w.
          ((r ≡ pos 0) × IsGuest owner v.mm xs ept phys w.mm) × ((f : ℕ) → w.vmcs f ≡ v.vmcs f))
        (sys_alloc_vm_mem phys v)
unfolding sys_alloc_vm_mem
sys_alloc_vm_mem-IsGuest owner v xs ept phys here tables root bound room = Returns-lift_mm v (
    subst
      (λ o.
        Returns (λ z t. (z ≡ pos 0) × IsGuest owner v.mm xs ept phys t) (alloc_guest o phys v.mm))
      (sym here) (alloc_guest-IsGuest owner v.mm xs ept phys tables root bound room))
