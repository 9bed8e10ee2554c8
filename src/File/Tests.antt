-- ===== src/File/Tests.antt =====
-- Runs of kernel/file.c.
use myos_git.Prelude.{ℕ, ◌+◌, ◌-◌, ◌%◌, ◌≡◌, refl, none, some, arith, ◌==◌, if◌then◌else◌}
use myos_git.Prelude.Int.{pos}
use myos_git.Prelude.Result.{Returns, and_then}
use myos_git.Klib.Block.{within}
use myos_git.Console.Keyboard.{Terminal}
use myos_git.Console.Keyboard.Fifo.{contents}
use myos_git.Fs.State.{Fs}
use myos_git.File.Calls.{cleared}
use myos_git.File.State.{Kernel, fdfile}
use myos_git.File.Transfer.{file_read, file_write, cons_read}
use myos_git.File.Transfer.Reading.{IsRead, file_read-IsRead}
use myos_git.File.Transfer.Writing.{IsAllocated}
use myos_git.File.Transfer.Written.{file_write-IsAllocated, file_read-file_write}
use myos_git.File.Transfer.Characters.{IsTyped, cons_read-IsTyped}

-- Block 20 is free; the files have the block 7, and nothing behind it.
abbrev one_block : Fs
one_block = record {
  blk_bitmap = λ w. if w == 0 then 1048576 else 0;
  ino_table = λ i. record { di_size = 4096; di_type = 0; block = λ j. if j == 0 then 7 else 0 };
  disk = λ b p. p % 256;
  pages_left = 20;
}

-- Two bytes wait at the keyboard.
abbrev console : Terminal
console = record {
  kbs = record { buf = λ a. 97; rpos = 1; wpos = 3 };
  screen = record { xpos = 0; ypos = 0; video = λ a. 0 };
}

-- File 0 at the given offset, with two references from the descriptors 4 and 5; the other files are
-- unused.
abbrev kernel_at : ℕ → Kernel
kernel_at offset = record {
  fs = one_block;
  filetable = λ f.
      if f == 0
      then record { refcount = pos 2; offset = offset; inode = some 3; file_type = fdfile }
      else cleared;
  fdtable = λ fd. if fd == 4 then some 0 else if fd == 5 then some 0 else none;
  terminal = console;
  memory = λ a. (a + 1) % 256;
}

file_read-IsRead_example :
    Returns (IsRead (kernel_at 0) 0 3 1000 10 0 0) (file_read 0 1000 10 0 (kernel_at 0))
file_read-IsRead_example =
    file_read-IsRead 0 3 1000 10 0 (kernel_at 0) refl (omega arith) (λ i ge lt e. ground arith)
      (omega arith)

file_write-IsAllocated_example :
    Returns (IsAllocated (kernel_at 5000) 0 3 1000 10 5000) (file_write 0 1000 10 (kernel_at 5000))
file_write-IsAllocated_example =
    file_write-IsAllocated 0 3 1000 10 (kernel_at 5000) refl (omega arith) (omega arith)
      (omega arith) (omega arith) refl

file_read-file_write_example :
    Returns
      (λ v k2.
        (v ≡ pos 10)
        × ((a : ℕ)
            → k2.memory a
              ≡ (if within 2000 10 a then (1000 + (a - 2000) + 1) % 256 else (a + 1) % 256)))
      (and_then (file_write 0 1000 10 (kernel_at 8)) (λ v k1. file_read 0 2000 10 8 k1))
file_read-file_write_example =
    file_read-file_write 0 3 1000 10 (kernel_at 8) refl (omega arith) (omega arith) (omega arith)
      (omega arith) 2000 (λ e. omega arith) (omega arith) (omega arith)

cons_read-IsTyped_example :
    IsTyped 5 1000 0 (kernel_at 0) (contents console.kbs) (cons_read 5 1000 0 (kernel_at 0))
unfolding contents
cons_read-IsTyped_example =
    cons_read-IsTyped 5 1000 (kernel_at 0) (record { read = omega arith; write = omega arith })
      (omega arith, (omega arith, tt))
