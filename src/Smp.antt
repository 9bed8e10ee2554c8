-- ===== src/Smp.antt =====
-- The other processors, kernel/lapic.c: the search for the multiprocessor tables, the processors listed in
-- them, and their start.
pub mod Listed
pub mod Started
mod Tests
use myos_git.Prelude.{
  ℕ, zero, suc, ◌+◌, ◌-◌, ◌*◌, ◌/◌, ◌%◌, ◌^◌, Bool, true, false, Option, none, some, List, [], ◌∷◌,
  ◌++◌, ◌==◌, ltb, ◌&&◌, if◌then◌else◌, update, bit_or,
}
use myos_git.Prelude.Int.{ℤ, pos, negsuc}
use myos_git.Mm.State.{Mm, Run, ok, and_then, set_word}
use myos_git.Mm.{Slot, walk_page, tlb_invalid, table_flags}

-- `start[0..3]` is the signature "_MP_".
abbrev pub signed : (ℕ → ℕ) → ℕ → Bool
signed mem a =
    mem a == b'_' && (mem (a + 1) == b'M' && (mem (a + 2) == b'P' && mem (a + 3) == b'_'))

-- The loop, a step of 4 at a time: where the signature stands.
unfoldable pub search_from : (ℕ → ℕ) → ℕ → ℕ → Option ℕ
search_from mem zero a = none
search_from mem (suc n) a =
    let rest = search_from mem n (a + 4) in if signed mem a then some a else rest

-- Physical addresses stand for their virtual ones. none is the result 0.
unfoldable pub find_smp_config : (ℕ → ℕ) → (addr size : ℕ) → Option ℕ
unfolding search_from
find_smp_config mem addr size = search_from mem ((size + 3) / 4) addr

-- `lapic_ids` and `numcores`.
pub record Cores : Type 0 where
  pub lapic_ids : ℕ → ℕ
  pub numcores : ℕ

abbrev pub maxcpus : ℕ
maxcpus = 8

-- `sizeof(struct mp_configuration_table)`, `sizeof(struct entry_processor)` and the others'.
abbrev pub table_size : ℕ
table_size = 44

abbrev pub entry_processor_size : ℕ
entry_processor_size = 20

abbrev pub entry_size : ℕ
entry_size = 8

-- The processor is stored at the next place of `lapic_ids`, which none is out of.
abbrev add_core : ℕ → Cores → Option Cores
add_core id s =
    if ltb s.numcores maxcpus
    then some (record { lapic_ids = update s.lapic_ids s.numcores id; numcores = s.numcores + 1 })
    else none

abbrev and_core : Option Cores → (Cores → Option Cores) → Option Cores
and_core none k = none
and_core (some s) k = k s

-- The loop over `entry_count` entries from `pp` on.
unfoldable pub read_entries : (ℕ → ℕ) → ℕ → ℕ → Cores → Option Cores
read_entries mem zero pp s = some s
read_entries mem (suc n) pp s =
    let core =
      and_core (add_core (mem (pp + 1)) s) (read_entries mem n (pp + entry_processor_size)) in
    let other = read_entries mem n (pp + entry_size) s in if mem pp == 0 then core else other

-- `a || b` on the results of the searches.
abbrev pub or_else : Option ℕ → Option ℕ → Option ℕ
or_else none b = b
or_else (some a) b = some a

-- Two and four bytes, the lowest first.
abbrev pub short_at : (ℕ → ℕ) → ℕ → ℕ
short_at mem a = mem a + 2 ^ 8 * mem (a + 1)

abbrev pub int_at : (ℕ → ℕ) → ℕ → ℕ
int_at mem a = short_at mem a + 2 ^ 16 * short_at mem (a + 2)

read_table : (ℕ → ℕ) → Option ℕ → Cores → Option Cores
unfolding read_entries
read_table mem none s = some s
read_table mem (some mpfp) s =
    let mpct = int_at mem (mpfp + 4) in
    read_entries mem (short_at mem (mpct + 34)) (mpct + table_size) s

pub init_mp_config : (ℕ → ℕ) → Cores → Option Cores
unfolding find_smp_config read_table
init_mp_config mem s =
    let low = find_smp_config mem 0 0x400 in
    let base = find_smp_config mem (639 * 0x400) 0x400 in
    let bios = find_smp_config mem 0xf0000 0x10000 in
    read_table mem (or_else low (or_else base bios)) s

-- The local APIC's registers: what is written to them and which are read, the last one first.
pub data Access : Type 0 where
  store : ℕ → ℕ → Access
  load : ℕ → Access

-- `*pte = paddr | PTE_U | PTE_W | PTE_P` and the spurious interrupt's register, whose old value is `spur`.
enable_slot : (va paddr spur : ℕ) → Option Slot → List Access → Mm → Run (ℤ × List Access)
enable_slot va paddr spur none log s = ok (negsuc 0, log) s
enable_slot va paddr spur (some slot) log s =
    ok (pos 0, store 0xf0 (bit_or spur 0x100) ∷ load 0xf0 ∷ log)
      (tlb_invalid va (set_word slot.table slot.index (bit_or paddr table_flags) s))

-- `base` is the register 0x1B. The source does not say what it returns at its end.
pub enable_lapic : (kpgdir base spur : ℕ) → List Access → Mm → Run (ℤ × List Access)
unfolding enable_slot
enable_lapic kpgdir base spur log s =
    let paddr = base % 2 ^ 32 / 2 ^ 12 * 2 ^ 12 in
    let va = bit_or 0xffffffff00000000 paddr in
    and_then (walk_page kpgdir va 1 s) (λ slot t. enable_slot va paddr spur slot log t)

-- The body for the processor at the place `i`, whose interrupts go to `dest`.
unfoldable pub wake : ℕ → List Access → List Access
wake dest log =
    let init = store 0x300 0x8500 ∷ store 0x300 0xc500 ∷ store 0x310 dest ∷ log in
    let once = load 0x20 ∷ store 0x300 0x608 ∷ load 0x20 ∷ store 0x310 dest ∷ init in
    load 0x20 ∷ store 0x300 0x608 ∷ load 0x20 ∷ store 0x310 dest ∷ once

-- The loop with the rounds left: `i << 24` is the destination.
unfoldable pub wake_from : ℕ → ℕ → ℕ → Cores → List Access → List Access
unfolding wake
wake_from bspid zero i s log = log
wake_from bspid (suc n) i s log =
    wake_from bspid n (i + 1) s
      (if s.lapic_ids i == bspid then log else wake (i * 2 ^ 24 % 2 ^ 32) log)

pub startup_smp : ℕ → Cores → List Access → List Access
unfolding wake_from
startup_smp bspid s log = wake_from bspid s.numcores 0 s log
