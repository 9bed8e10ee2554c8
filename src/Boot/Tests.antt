-- ===== src/Boot/Tests.antt =====
-- The loader run on a small kernel.
use myos_git.Prelude.{ℕ, zero, suc, ◌+◌, ◌*◌, ◌%◌, [], ◌==◌, if◌then◌else◌, ltb}
use myos_git.Port.{Machine}

abbrev machine : Machine
machine = record { log = []; mem = λ a. 0 }

-- An ELF file with the program headers at 64: one segment of 600 bytes at 512, to be loaded at 0x100000.
abbrev kernel_byte : ℕ → ℕ
kernel_byte x =
    if x == 0
    then 0x7f
    else if x == 1
    then b'E'
    else if x == 2
    then b'L'
    else if x == 3
    then b'F'
    else if x == 26
    then 0x10
    else if x == 32
    then 64
    else if x == 56
    then 1
    else if x == 64
    then 1
    else if x == 73
    then 2
    else if x == 90
    then 0x10
    else if x == 96
    then 0x58
    else if x == 97
    then 2
    else if ltb x 512
    then 0
    else x % 256

abbrev kernel : ℕ → ℕ → ℕ
kernel zero i = 0
kernel (suc s) i = kernel_byte (s * 512 + i)
