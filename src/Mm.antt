-- ===== src/Mm.antt =====
-- kernel/mm.c, as it is built for amd64: the list of free page frames, and the four-level page
-- tables. A `struct page *` is the index of the page in `pages`, none for NULL; a pointer into the
-- kernel's linear mapping is a frame number and a 64-bit word's index in the frame.
pub mod State
pub mod Frames
pub mod Tables
pub mod Bytes
pub mod Walk
pub mod Startup
mod Tests
use myos_git.Prelude.{
  ℕ, zero, suc, ◌+◌, ◌-◌, ◌*◌, ◌/◌, ◌%◌, ◌^◌, Bool, true, false, not, Option, none, some, List, ◌∷◌,
  bit_and, bit_or, ◌==◌, ltb, if◌then◌else◌, update,
}
use myos_git.Prelude.Int.{ℤ, pos, negsuc, inc, dec, is_zero}
use State.{Mm, Page, Run, ok, fault, ◌>>=◌, set_word}

abbrev pub page_size : ℕ
page_size = 4096

abbrev pub pgzero : ℕ
pgzero = 1

-- `PTE_P` and `PTE_U | PTE_W | PTE_P`.
abbrev pub pte_p : ℕ
pte_p = 1

abbrev pub table_flags : ℕ
table_flags = 7

-- `PAGE2PA`: the index shifted left by `PTE_SHIFT`, as an unsigned long.
unfoldable pub page2pa : ℕ → ℕ
page2pa p = p * 2 ^ 12 % 2 ^ 64

-- An entry's frame, `entry / PAGESIZE * PAGESIZE` behind `KPA2VA`, or `entry >> PTE_SHIFT`.
abbrev pub frame_of : ℕ → ℕ
frame_of entry = entry / page_size

unfoldable pub present : ℕ → Bool
present entry = not (bit_and entry pte_p == 0)

set_page : ℕ → Page → Mm → Mm
set_page p v s = record s { pages = update s.pages p v }

-- `if (flags & PGZERO) memset(PAGE2VA(p), 0, PAGESIZE)`.
clear_frame : ℕ → ℕ → (ℕ → ℕ → ℕ) → ℕ → ℕ → ℕ
clear_frame flags p mem = if bit_and flags pgzero == 0 then mem else update mem p (λ _. 0)

-- The body of `alloc_page` for a list that begins with `p`.
pub take_page : ℕ → ℕ → Mm → Mm
unfolding set_page clear_frame
take_page flags p s =
    let s' = record s { phead = (s.pages p).link; mem = clear_frame flags p s.mem } in
    set_page p (record (s.pages p) { count = inc (s.pages p).count }) s'

alloc_from : ℕ → Option ℕ → Mm → Option ℕ × Mm
unfolding take_page
alloc_from flags none s = (none, s)
alloc_from flags (some p) s = (some p, take_page flags p s)

pub alloc_page : ℕ → Mm → Option ℕ × Mm
unfolding alloc_from
alloc_page flags s = alloc_from flags s.phead s

-- `free_page` after `p->count--` has left `count`.
put_page : ℕ → ℤ → Mm → Mm
unfolding set_page
put_page p count s =
    if is_zero count
    then record (set_page p (record { link = s.phead; count = count }) s) { phead = some p }
    else set_page p (record (s.pages p) { count = count }) s

pub free_page : Option ℕ → Mm → Mm
unfolding put_page
free_page none s = s
free_page (some p) s = put_page p (dec (s.pages p).count) s

-- The loops of `init_page` that put the pages lo + n - 1, …, lo in front of `p`.
link_down : ℕ → ℕ → (ℕ → Page) → Option ℕ → (ℕ → Page) × Option ℕ
link_down lo zero pages p = (pages, p)
link_down lo (suc n) pages p =
    link_down lo n (update pages (lo + n) (record { link = p; count = pos 0 })) (some (lo + n))

-- The first loop: every page is counted and unlinked.
count_all : ℕ → (ℕ → Page) → ℕ → Page
count_all npages pages i =
    if ltb i npages then record { link = none; count = inc (pages i).count } else pages i

-- `init_page`, with the end of the kernel's image and tables as a physical address, for a memory of at least one
-- page: the source's `npages - 1` wraps around at 0.
unfoldable pub init_page : ℕ → ℕ → Mm → Mm
unfolding link_down count_all
init_page npages kused_mem s =
    let used = (kused_mem + page_size - 1) / page_size in
    let (high_pages, high) = link_down used (npages - used) (count_all npages s.pages) none in
    let (low_pages, low) = link_down 1 7 high_pages high in
    let (all_pages, p) = link_down 9 151 low_pages low in record s { pages = all_pages; phead = p }

-- Bits 12 + 9 n and up, `address >> SHIFT & 0x1ff`: n is 0 for PTE_SHIFT, 1 for PGD_SHIFT, 2 for
-- PDP_SHIFT and 3 for PML_SHIFT.
unfoldable pub level_index : ℕ → ℕ → ℕ
level_index n va = bit_and (va / 2 ^ (12 + 9 * n)) 0x1ff

-- `p = alloc_page(1); table[i] = PAGE2PA(p) | PTE_U | PTE_W | PTE_P`. The source uses `p` unchecked.
link_table : ℕ → ℕ → Option ℕ × Mm → Run ℕ
link_table table i (none, s) = fault
link_table table i (some p, s) = ok p (set_word table i (bit_or (page2pa p) table_flags) s)

pub new_table : ℕ → ℕ → Mm → Run ℕ
unfolding alloc_page link_table
new_table table i s = link_table table i (alloc_page 1 s)

pub record Slot : Type 0 where
  pub table : ℕ
  pub index : ℕ

-- What `walk_dir` and `walk_page` return: none is -1, and a slot is 0 with the entry's address
-- stored in `*pte`.
pub walk_dir : ℕ → ℕ → ℕ → Mm → Run (Option Slot)
unfolding new_table
walk_dir pgdir va create s =
    let pgdindex = level_index 1 va in
    let pteindex = level_index 0 va in
    if present (s.mem pgdir pgdindex)
    then ok (some (record { table = frame_of (s.mem pgdir pgdindex); index = pteindex })) s
    else if create == 1
    then (do pde ← new_table pgdir pgdindex; ok (some (record { table = pde; index = pteindex }))) s
    else ok none s

-- `walk_page` below a PML4 entry that is present.
walk_pdp : ℕ → ℕ → ℕ → Mm → Run (Option Slot)
unfolding walk_dir
walk_pdp pml4 va create s =
    let pdpindex = level_index 2 va in
    if present (s.mem pml4 pdpindex)
    then walk_dir (frame_of (s.mem pml4 pdpindex)) va create s
    else if create == 0
    then ok none s
    else (do pdpt ← new_table pml4 pdpindex; walk_dir pdpt va create) s

pub walk_page : ℕ → ℕ → ℕ → Mm → Run (Option Slot)
unfolding walk_pdp
walk_page pgdir va create s =
    let pmlindex = level_index 3 va in
    if present (s.mem pgdir pmlindex)
    then walk_pdp (frame_of (s.mem pgdir pmlindex)) va create s
    else if create == 0
    then ok none s
    else (do
      pml4 ← new_table pgdir pmlindex
      pdpt ← new_table pml4 (level_index 2 va)
      walk_dir pdpt va create)
        s

-- `invlpg`.
unfoldable pub tlb_invalid : ℕ → Mm → Mm
tlb_invalid va s = record s { flushed = va ∷ s.flushed }

set_entry : ℕ → Slot → ℕ → Mm → Run ℤ
unfolding tlb_invalid
set_entry va slot entry s = ok (pos 0) (tlb_invalid va (set_word slot.table slot.index entry s))

fill_slot : ℕ → ℕ → ℕ → Option Slot → Mm → Run ℤ
unfolding set_entry
fill_slot va pp flag none = ok (negsuc 0)
fill_slot va pp flag (some slot) = set_entry va slot (bit_or (page2pa pp) flag)

pub insert_page : ℕ → ℕ → Option ℕ → ℕ → Mm → Run ℤ
unfolding fill_slot
insert_page pgdir va none flag = ok (negsuc 0)
insert_page pgdir va (some pp) flag = do slot ← walk_page pgdir va 1; fill_slot va pp flag slot

-- `if (*pte & PTE_P) free_page(&pages[*pte >> PTE_SHIFT])`.
drop_entry : ℕ → Mm → Mm
drop_entry entry s = if present entry then free_page (some (frame_of entry)) s else s

clear_slot : ℕ → Option Slot → Mm → Run ℤ
unfolding drop_entry set_entry
clear_slot va none s = ok (negsuc 0) s
clear_slot va (some slot) s = set_entry va slot 0 (drop_entry (s.mem slot.table slot.index) s)

pub remove_page : ℕ → ℕ → Mm → Run ℤ
unfolding clear_slot
remove_page pgdir va = do slot ← walk_page pgdir va 0; clear_slot va slot
