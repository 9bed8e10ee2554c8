-- ===== src/Boot.antt =====
-- The second stage of the boot loader, boot/main.c, as it is built for amd64.
pub mod File
pub mod Copy
pub mod Loaded
mod Tests
use myos_git.Prelude.{
  ℕ, zero, suc, ◌+◌, ◌-◌, ◌*◌, ◌/◌, ◌%◌, ◌^◌, Bool, Option, none, some, bit_and, bit_or, ◌==◌, ltb,
  ◌&&◌, if◌then◌else◌,
}
use myos_git.Port.{Device, Machine, outb}
use myos_git.Port.Ide.{read_sectors}

-- The registers of `diskcpy`'s command, the drive's one first.
unfoldable pub start_copy : ℕ → ℕ → Machine → Machine
start_copy lba count m = outb 0x1f7 0x20 (
    outb 0x1f5 (lba / 2 ^ 16) (
      outb 0x1f4 (lba / 2 ^ 8) (
        outb 0x1f3 lba (
          outb 0x1f2 count
            (outb 0x1f1 0 (outb 0x1f6 (bit_or 0xe0 (bit_and (lba / 2 ^ 24) 0x0f)) m))))))

-- `polls` bounds the rounds of each `wait`. The loop is the one of kernel/ide.c.
pub diskcpy : Device → ℕ → ℕ → ℕ → ℕ → Machine → Option Machine
unfolding start_copy
diskcpy d polls dest lba count m = read_sectors d polls count dest (start_copy lba count m)

-- A number of `n` bytes in the memory, the lowest byte first.
unfoldable pub little_endian : (ℕ → ℕ) → ℕ → ℕ → ℕ
little_endian mem zero a = 0
little_endian mem (suc n) a = mem a % 2 ^ 8 + 2 ^ 8 * little_endian mem n (a + 1)

-- The fields of `Elf64_Ehdr` and `Elf64_Phdr` that the loader reads, of headers at an address.
abbrev pub magic : (ℕ → ℕ) → ℕ → Bool
magic mem a =
    little_endian mem 1 a == 0x7f
    && (little_endian mem 1 (a + 1) == b'E'
        && (little_endian mem 1 (a + 2) == b'L' && little_endian mem 1 (a + 3) == b'F'))

abbrev pub e_entry : (ℕ → ℕ) → ℕ → ℕ
e_entry mem a = little_endian mem 8 (a + 24)

abbrev pub e_phoff : (ℕ → ℕ) → ℕ → ℕ
e_phoff mem a = little_endian mem 8 (a + 32)

abbrev pub e_phnum : (ℕ → ℕ) → ℕ → ℕ
e_phnum mem a = little_endian mem 2 (a + 56)

abbrev pub p_type : (ℕ → ℕ) → ℕ → ℕ
p_type mem a = little_endian mem 4 a

abbrev pub p_offset : (ℕ → ℕ) → ℕ → ℕ
p_offset mem a = little_endian mem 8 (a + 8)

abbrev pub p_paddr : (ℕ → ℕ) → ℕ → ℕ
p_paddr mem a = little_endian mem 8 (a + 24)

abbrev pub p_filesz : (ℕ → ℕ) → ℕ → ℕ
p_filesz mem a = little_endian mem 8 (a + 32)

abbrev pub pt_load : ℕ
pt_load = 1

-- The address of the file's first sector, and the size of a program header.
abbrev pub output : ℕ
output = 0x80000

abbrev pub phdr_size : ℕ
phdr_size = 56

-- `m + 1` and `k` of the loop, as unsigned ints.
abbrev pub first_sector : ℕ → ℕ
first_sector offset = (offset / 512 % 2 ^ 32 + 1) % 2 ^ 32

abbrev pub sectors_of : ℕ → ℕ
sectors_of filesz = (filesz + 511) % 2 ^ 64 / 512 % 2 ^ 32

-- The body of the loop, for the program header at `phdr`.
pub load_segment : Device → ℕ → ℕ → Machine → Option Machine
load_segment d polls phdr m =
    if p_type m.mem phdr == pt_load
    then diskcpy d polls (p_paddr m.mem phdr) (first_sector (p_offset m.mem phdr))
        (sectors_of (p_filesz m.mem phdr)) m
    else some m

-- How `main` ends: it returns, or it calls the entry point.
pub data Outcome : Type 0 where
  returned : Machine → Outcome
  entered : ℕ → Machine → Outcome

-- The loop from `i` on: `e_phnum` is read again in each round, and is below 2 ^ 16.
abbrev pub and_load : Option Machine → (Machine → Option Outcome) → Option Outcome
and_load none k = none
and_load (some m) k = k m

pub load_segments : Device → ℕ → ℕ → ℕ → ℕ → Machine → Option Outcome
load_segments d polls phdrs zero i m = none
load_segments d polls phdrs (suc fuel) i m =
    let rest =
      and_load (load_segment d polls (phdrs + i * phdr_size) m)
        (load_segments d polls phdrs fuel (i + 1)) in
    if ltb i (e_phnum m.mem output) then rest else some (entered (e_entry m.mem output) m)

-- `main` after it has read the first sector.
pub run_loader : Device → ℕ → Machine → Option Outcome
run_loader d polls m =
    let phdrs = output + e_phoff m.mem output in
    if magic m.mem output then load_segments d polls phdrs (2 ^ 16) 0 m else some (returned m)

pub main : Device → ℕ → Machine → Option Outcome
main d polls m = and_load (diskcpy d polls output 1 1 m) (run_loader d polls)
