-- ===== src/Vmx/Memory.antt =====
-- The memory of the guest: `sys_alloc_vm_mem` and `sys_mmap_mem` of kernel/amd64/vmx.c.
pub mod Guest
pub mod Bytes
use myos_git.Prelude.{ℕ, zero, suc, ◌+◌, ◌-◌, ◌*◌, ◌/◌, ◌%◌, ◌^◌, Option, none, some, update}
use myos_git.Prelude.Int.{ℤ, pos, negsuc}
use myos_git.Prelude.Result.{Res, ok, fault, and_then}
use myos_git.Mm.Bytes.{put_bytes}
use myos_git.Mm.State.{Mm, set_word}
use myos_git.Mm.{Slot, alloc_page, walk_page, insert_page, page_size}
use myos_git.Vmx.State.{Vmx, lift_mm}

-- `VMX_EPT_PTE_FULL`.
abbrev pub vmx_ept_pte_full : ℕ
vmx_ept_pte_full = 7

-- The screen's address and its entry, `0xb8000 | VMX_EPT_PTE_FULL | 0x40`.
abbrev pub screen : ℕ
screen = 0xb8000

abbrev pub screen_entry : ℕ
screen_entry = 0xb8047

map_guest_page : ℕ → ℕ → Option ℕ × Mm → Res Mm ℤ
map_guest_page ept gpa (pp, s) = insert_page ept gpa pp vmx_ept_pte_full s

-- The two loops, with the rounds left: the results of `insert_page` are not looked at.
pub map_guest : ℕ → (ept gpa : ℕ) → Mm → Res Mm ℤ
unfolding map_guest_page
map_guest zero ept gpa s = ok (pos 0) s
map_guest (suc n) ept gpa s =
    and_then (map_guest_page ept gpa (alloc_page 1 s)) (λ r t. map_guest n ept (gpa + page_size) t)

-- The rounds of `for (gpa = 0x218000; gpa < phys; gpa += PAGESIZE)`.
abbrev pub high_pages : ℕ → ℕ
high_pages phys = (phys - 0x218000 + 4095) / 4096

-- From the write of the screen's entry on.
fill_guest : ℕ → ℕ → Option Slot → Mm → Res Mm ℤ
unfolding map_guest
fill_guest ept phys none s = ok (negsuc 0) s
fill_guest ept phys (some slot) s =
    and_then (map_guest 0xa0 ept 0 (set_word slot.table slot.index screen_entry s))
      (λ r t. and_then (map_guest (high_pages phys) ept 0x218000 t) (λ r' u. ok (pos 0) u))

-- With `ept_pgdir` NULL the walk reads through it.
alloc_guest : Option ℕ → ℕ → Mm → Res Mm ℤ
unfolding fill_guest
alloc_guest none phys s = fault
alloc_guest (some ept) phys s =
    and_then (walk_page ept screen 1 s) (λ slot t. fill_guest ept phys slot t)

pub sys_alloc_vm_mem : ℕ → Vmx → Res Vmx ℤ
unfolding alloc_guest
sys_alloc_vm_mem phys v = lift_mm (alloc_guest v.ept_pgdir phys v.mm) v

-- A page with the bytes, at the offset of `gpa` in its page; the length is not compared with what is left.
map_bytes : ℕ → ℕ → ℕ → (ℕ → ℕ) → Option ℕ × Mm → Res Mm ℤ
map_bytes ept gpa length bytes (none, s) = fault
map_bytes ept gpa length bytes (some p, s) =
    insert_page ept gpa (some p) vmx_ept_pte_full
      (record s { mem = put_bytes (p * page_size + gpa % page_size) length bytes s.mem })

map_in : Option ℕ → ℕ → ℕ → (ℕ → ℕ) → Mm → Res Mm ℤ
unfolding map_bytes
map_in none gpa length bytes s = fault
map_in (some ept) gpa length bytes s = map_bytes ept gpa length bytes (alloc_page 1 s)

-- `bytes` are those at `addr`; `prot` is not used.
pub sys_mmap_mem : (ℕ → ℕ) → ℕ → ℕ → Vmx → Res Vmx ℤ
unfolding map_in
sys_mmap_mem bytes length gpa v = lift_mm (map_in v.ept_pgdir gpa length bytes v.mm) v
