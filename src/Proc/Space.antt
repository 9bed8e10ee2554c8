-- ===== src/Proc/Space.antt =====
-- The address spaces of processes in kernel/proc.c: `alloc_vm`, `memmap`, the loop of `sys_fork` that
-- shares the pages, `free_pgtable` and `destroy_vm`.
pub mod Range
pub mod Shared
mod Tests
use myos_git.Prelude.{
  ℕ, zero, suc, ◌+◌, ◌-◌, ◌*◌, ◌/◌, ◌%◌, ◌^◌, Bool, true, false, Option, none, some, ◌==◌, leb,
  if◌then◌else◌, bit_or, update,
}
use myos_git.Prelude.Int.{ℤ, pos, negsuc, inc}
use myos_git.Prelude.Result.{Res, ok, and_then}
use myos_git.Mm.State.{Mm, set_word}
use myos_git.Mm.{
  frame_of, level_index, Slot, alloc_page, free_page, walk_page, insert_page, remove_page,
  tlb_invalid, table_flags, page_size,
}

-- `UTEXT` and `USTACKTOP`.
abbrev pub utext : ℕ
utext = 2147483648

abbrev pub ustacktop : ℕ
ustacktop = 2415919104 - 4096

-- `PTE_U | PTE_P | PTE_COW`.
abbrev pub cow_flags : ℕ
cow_flags = 2053

unfoldable pub copy_table : ℕ → Option ℕ × Mm → Option ℕ × Mm
copy_table pgdir (none, s) = (none, s)
copy_table pgdir (some pp, s) = (some pp, record s { mem = update s.mem pp (s.mem pgdir) })

-- The new table's frame; none is NULL.
unfoldable pub alloc_vm : ℕ → Mm → Option ℕ × Mm
unfolding copy_table
alloc_vm pgdir s = copy_table pgdir (alloc_page 1 s)

map_page : ℕ → ℕ → Option ℕ × Mm → Res Mm ℤ
map_page pgdir va (pp, s) = insert_page pgdir va pp table_flags s

-- The loop of `memmap` from `va` on. `start` and `i` are 32-bit integers, and the results of `insert_page` are
-- not looked at.
map_pages : ℕ → (pgdir va : ℕ) → Mm → Res Mm ℤ
unfolding map_page
map_pages zero pgdir va s = ok (pos 0) s
map_pages (suc n) pgdir va s =
    and_then (map_page pgdir va (alloc_page 0 s))
      (λ r t. map_pages n pgdir ((va + page_size) % 2 ^ 32) t)

pub memmap : (pgdir addr size : ℕ) → Mm → Res Mm ℤ
unfolding map_pages
memmap pgdir addr size s =
    map_pages ((size + page_size - 1) % 2 ^ 32 / page_size) pgdir
      (addr / page_size * page_size % 2 ^ 32) s

-- The test of the result: the state behind it, or the one before it.
shared : ℤ → Mm → Mm → Res Mm ℤ
shared (pos n) u t = ok (pos 0) u
shared (negsuc n) u t = ok (negsuc n) t

-- What `sys_fork` does with a page of the parent: `word` is its entry.
share_entry : (child addr : ℕ) → Slot → ℕ → Mm → Res Mm ℤ
unfolding shared
share_entry child addr slot word s =
    let pp = frame_of word in
    and_then (insert_page child addr (some pp) cow_flags s) (λ r t.
      let page = t.pages pp in
      let u = record t { pages = update t.pages pp (record page { count = inc page.count }) } in
      let old = u.mem slot.table slot.index in
      let new = bit_or (old / page_size * page_size) cow_flags in
      shared r (tlb_invalid addr (set_word slot.table slot.index new u)) t)

share_slot : (child addr : ℕ) → Option Slot → Mm → Res Mm ℤ
unfolding share_entry
share_slot child addr none s = ok (pos 0) s
share_slot child addr (some slot) s =
    let word = s.mem slot.table slot.index in
    let entry = share_entry child addr slot word s in if word == 0 then ok (pos 0) s else entry

-- One round: `continue` and the end of the body are 0, and `return r` is negative.
pub share_page : (parent child addr : ℕ) → Mm → Res Mm ℤ
unfolding share_slot
share_page parent child addr s =
    and_then (walk_page parent addr 0 s) (λ slot t. share_slot child addr slot t)

or_return : ℤ → (Mm → Res Mm ℤ) → Mm → Res Mm ℤ
or_return (pos n) rest s = rest s
or_return (negsuc n) rest s = ok (negsuc n) s

-- The loop from `addr` on, with the rounds left.
pub share_pages : ℕ → (parent child addr : ℕ) → Mm → Res Mm ℤ
unfolding or_return
share_pages zero parent child addr s = ok (pos 0) s
share_pages (suc n) parent child addr s =
    and_then (share_page parent child addr s)
      (λ r t. or_return r (share_pages n parent child (addr + page_size)) t)

-- `free_page(PA2PAGE(*entry >> 12)); *entry = NULL`.
release : (table i : ℕ) → Mm → Mm
release table i s = set_word table i 0 (free_page (some (frame_of (s.mem table i))) s)

-- How a loop of `free_pgtable` ends: at the end of the addresses, or at the end of its table.
pub record Freed : Type 0 where
  pub ended : Bool
  pub addr : ℕ
  pub mm : Mm

-- `(addr + SIZE) & MASK` for tables whose entries span 2 ^ shift bytes.
next_span : (shift addr : ℕ) → ℕ
next_span shift addr = (addr + 2 ^ shift) / 2 ^ shift * 2 ^ shift

-- The step to the next entry, with the loop's rest. The pointer behind the entry `i` ends the loop, while the next round
-- has the index of the new address.
to_next : (shift i addr : ℕ) → (ℕ → Freed) → Mm → Freed
unfolding next_span
to_next shift i addr rest s =
    let a = next_span shift addr in
    let more = rest a in
    if leb ustacktop a
    then record { ended = true; addr = a; mm = s }
    else if i + 1 == 512
    then record { ended = false; addr = a; mm = s }
    else more

-- The innermost loop, over the entries of a page directory.
free_pgd : (fuel table i addr : ℕ) → Mm → Freed
unfolding to_next release
free_pgd zero table i addr s = record { ended = false; addr = addr; mm = s }
free_pgd (suc fuel) table i addr s =
    let t = if s.mem table i == 0 then s else release table i s in
    to_next 21 i addr (λ a. free_pgd fuel table (level_index 1 a) a t) t

-- A level above: the entry's table is freed entry by entry with `inner`, and then the entry.
free_entry : (table i addr : ℕ) → (ℕ → Mm → Freed) → Mm → Freed
free_entry table i addr inner s =
    let f = inner (frame_of (s.mem table i)) s in
    if s.mem table i == 0
    then record { ended = false; addr = addr; mm = s }
    else record f { mm = release table i f.mm }

free_pdp : (fuel table i addr : ℕ) → Mm → Freed
unfolding free_entry to_next free_pgd
free_pdp zero table i addr s = record { ended = false; addr = addr; mm = s }
free_pdp (suc fuel) table i addr s =
    let f = free_entry table i addr (λ t. free_pgd 512 t (level_index 1 addr) addr) s in
    let rest = to_next 30 i f.addr (λ a. free_pdp fuel table (level_index 2 a) a f.mm) f.mm in
    if f.ended then f else rest

free_pml : (fuel table i addr : ℕ) → Mm → Freed
unfolding free_entry to_next free_pdp
free_pml zero table i addr s = record { ended = false; addr = addr; mm = s }
free_pml (suc fuel) table i addr s =
    let f = free_entry table i addr (λ t. free_pdp 512 t (level_index 2 addr) addr) s in
    let rest = to_next 39 i f.addr (λ a. free_pml fuel table (level_index 3 a) a f.mm) f.mm in
    if f.ended then f else rest

pub free_pgtable : ℕ → Mm → Mm
unfolding free_pml
free_pgtable pgdir s = (free_pml 512 pgdir (level_index 3 utext) utext s).mm

-- The loop of `destroy_vm` over the pages.
pub remove_pages : ℕ → (pgdir addr : ℕ) → Mm → Res Mm ℤ
remove_pages zero pgdir addr s = ok (pos 0) s
remove_pages (suc n) pgdir addr s =
    and_then (remove_page pgdir addr s) (λ r t. remove_pages n pgdir (addr + page_size) t)

-- `destroy_vm`, without the store of NULL to `pgdir`.
pub destroy_vm : ℕ → Mm → Res Mm ℤ
destroy_vm pgdir s =
    and_then (remove_pages ((ustacktop - utext) / page_size) pgdir utext s)
      (λ r t. ok (pos 0) (free_page (some pgdir) (free_pgtable pgdir t)))
