-- ===== src/Mm/Startup.antt =====
-- The memory at the start: `detect_memsize` and `init_mem` of kernel/mm.c, which lay out the kernel's tables behind its
-- image and build the list of free pages.
pub mod Laid
use myos_git.Prelude.{
  ℕ, zero, suc, ◌+◌, ◌-◌, ◌*◌, ◌/◌, ◌%◌, ◌^◌, List, [], ◌∷◌, bit_or, leb, ltb, ◌==◌, ◌&&◌, update,
  if◌then◌else◌,
}
use myos_git.Port.{Event, wrote, polled, Device}
use myos_git.Mm.State.{Mm, set_word}
use myos_git.Mm.{init_page}

-- The size that the CMOS has, with the accesses to its ports.
unfoldable pub detect_memsize : Device → List Event → ℕ × List Event
detect_memsize d log =
    let first = wrote 0x70 0x30 ∷ log in
    let second = wrote 0x70 0x31 ∷ polled 0x71 ∷ first in
    (bit_or (d.byte first 0x71 % 2 ^ 8) (d.byte second 0x71 % 2 ^ 8 * 2 ^ 8), polled 0x71 ∷ second)

abbrev pub kbase : ℕ
kbase = 0xffffffff80000000

-- `sizeof(struct page)` and `sizeof(struct proc)`.
abbrev pub struct_page_size : ℕ
struct_page_size = 16

abbrev pub struct_proc_size : ℕ
struct_proc_size = 464

-- `((a + PAGESIZE - 1) / PAGESIZE) * PAGESIZE`.
unfoldable pub page_up : ℕ → ℕ
page_up a = (a + 4095) % 2 ^ 64 / 4096 * 4096

-- The variables that `init_mem` sets, as kernel addresses.
pub record Layout : Type 0 where
  pub npages : ℕ
  pub kpgdir : ℕ
  pub pages_at : ℕ
  pub procs_at : ℕ
  pub kused_mem : ℕ

-- From the end of the kernel's image and the size that was detected.
unfoldable pub layout : ℕ → ℕ → Layout
layout end mem_size_kb =
    let npages = mem_size_kb * 2 ^ 2 % 2 ^ 32 in
    let kpgdir = page_up end in
    let pages_at = page_up ((kpgdir + 4096) % 2 ^ 64) in
    let procs_at = page_up ((pages_at + struct_page_size * npages) % 2 ^ 64) in
    record {
      npages = npages;
      kpgdir = kpgdir;
      pages_at = pages_at;
      procs_at = procs_at;
      kused_mem = (procs_at + struct_proc_size * 1024) % 2 ^ 64;
    }

-- The frame of a kernel address.
unfoldable pub frame_at : ℕ → ℕ
frame_at va = (va + 2 ^ 64 - kbase) % 2 ^ 64 / 4096

-- `memset(procs, 0, sizeof(struct proc) * 1024)`: 116 pages, from a page's start on.
unfoldable pub clear_procs : ℕ → Mm → Mm
clear_procs procs_at s = record s {
  mem =
      λ f i. if leb (frame_at procs_at) f && ltb f (frame_at procs_at + 116) then 0 else s.mem f i;
}

-- `boot_pgkdir` and `trampoline_data` are the words that the assembly files have there. The copy of `code` into
-- `vmxcode` stays within the kernel's image and is left out.
unfoldable pub init_tables : (boot_pgkdir trampoline_data : ℕ → ℕ) → Layout → Mm → Mm
unfolding clear_procs
init_tables boot_pgkdir trampoline_data l s =
    let root = set_word (frame_at l.kpgdir) 511 (boot_pgkdir 511) s in
    let trampoline = record root { mem = update root.mem 8 trampoline_data } in
    clear_procs l.procs_at trampoline

-- `init_page` first takes the kernel's base off the end of the tables.
unfoldable pub fill_tables : (boot_pgkdir trampoline_data : ℕ → ℕ) → Layout → Mm → Mm
fill_tables boot_pgkdir trampoline_data l s =
    init_page l.npages ((l.kused_mem + 2 ^ 64 - kbase) % 2 ^ 64)
      (init_tables boot_pgkdir trampoline_data l s)

pub init_mem :
    Device
    → (end : ℕ) → (boot_pgkdir trampoline_data : ℕ → ℕ) → List Event × Mm
    → Layout × List Event × Mm
init_mem d end boot_pgkdir trampoline_data (log, s) =
    let (mem_size_kb, log') = detect_memsize d log in
    let l = layout end mem_size_kb in (l, log', fill_tables boot_pgkdir trampoline_data l s)
