-- ===== src/Proc/Load/Tests.antt =====
-- A small program loaded.
use myos_git.Prelude.{
  ℕ, zero, suc, ◌+◌, ◌-◌, ◌*◌, ◌%◌, ◌<◌, ◌≤◌, ◌≡◌, range, false, ◌++◌, refl, none, some, arith,
  ◌==◌, ltb, if◌then◌else◌,
}
use myos_git.Prelude.Int.{pos}
use myos_git.Prelude.Result.{Returns}
use myos_git.Mm.Walk.Sample.{memory, memory-clear, memory-IsTables, no_table, length-free_pages}
use myos_git.Boot.{little_endian, e_phnum}
use myos_git.Proc.State.{System}
use myos_git.Proc.Table.{new_proc}
use myos_git.Proc.Space.{ustacktop}
use myos_git.Proc.Space.Range.{pages_of}
use myos_git.File.State.{fdeunknown}
use myos_git.Proc.Load.{create_proc}
use myos_git.Proc.Load.Created.{IsStarted, create_proc-IsStarted}
use myos_git.Mm.{present}
use myos_git.Mm.Tables.{present-zero}
use myos_git.Proc.Load.Kept.{base_of}
use myos_git.Proc.Load.Loaded.{IsImage, needed, cost, start, size}

-- An ELF image with one segment of 600 bytes, from 120 on in the image and at 0x80000000 in memory.
abbrev program : ℕ → ℕ
program x =
    if x == 0
    then 0x7f
    else if x == 1
    then b'E'
    else if x == 2
    then b'L'
    else if x == 3
    then b'F'
    else if x == 24
    then 0x10
    else if x == 27
    then 0x80
    else if x == 32
    then 64
    else if x == 56
    then 1
    else if x == 64
    then 1
    else if x == 72
    then 120
    else if x == 83
    then 0x80
    else if x == 104
    then 0x58
    else if x == 105
    then 2
    else if ltb x 120
    then 0
    else x % 256

one_header : e_phnum program 0 ≡ 1
unfolding little_endian
one_header = refl

below_lem :
    (i : ℕ)
    → i < e_phnum program 0
    → base_of (start program i) + pages_of (size program i) * 4096 ≤ ustacktop - 4096
unfolding little_endian
below_lem zero few = omega arith
below_lem (suc i) few = absurd (omega arith)

inside_lem :
    (i : ℕ)
    → i < e_phnum program 0
    → start program i + size program i
      ≤ base_of (start program i) + pages_of (size program i) * 4096
unfolding little_endian
inside_lem zero few = omega arith
inside_lem (suc i) few = absurd (omega arith)

program-IsImage : IsImage program
unfolding little_endian
program-IsImage = record {
  elf = refl;
  below = λ i few load. below_lem i few;
  inside = λ i few load. inside_lem i few;
  apart = λ i j a few few' ne load load' from to. absurd (omega arith);
}

program-needed : needed program (e_phnum program 0) 0 ≡ 1
unfolding little_endian cost
program-needed = refl

-- The process 3 has the table in frame 200.
abbrev system : System
system = record {
  procs = λ i. record (new_proc i) { pgdir = some 200 };
  proc_head = none;
  current = none;
  kpgdir = 199;
  mm = memory 100;
  filetable = λ i. record { refcount = pos 0; offset = 0; inode = none; file_type = fdeunknown };
}

-- The first block is free, and frame 200 is the kernel's empty table.
abbrev booted : System
booted = record {
  procs = new_proc;
  proc_head = some 0;
  current = none;
  kpgdir = 200;
  mm = memory 100;
  filetable = λ i. record { refcount = pos 0; offset = 0; inode = none; file_type = fdeunknown };
}

no_users : (i : ℕ) → i < 511 → present ((memory 100).mem 200 i) ≡ false
no_users i below = rw (memory-clear 100 i) present-zero

create_proc-IsStarted_example :
    Returns (λ r t. IsStarted program no_table 0 9 r t) (create_proc program booted)
create_proc-IsStarted_example =
    create_proc-IsStarted program no_table booted 0 9 (range 10 150 ++ (range 1 7 ++ range 256 100))
      program-IsImage refl (memory-IsTables 100 (omega arith)) (λ e. ground (arith, e)) no_users
      (omega (arith, program-needed, length-free_pages 100))
