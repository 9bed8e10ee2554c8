-- ===== src/File/Calls/Tests.antt =====
-- Runs of the calls of kernel/file.c on small tables.
use myos_git.Prelude.{ℕ, ◌+◌, ◌%◌, ◌≡◌, refl, none, some, arith, ◌==◌, if◌then◌else◌}
use myos_git.Prelude.Int.{pos}
use myos_git.Console.Keyboard.{Terminal}
use myos_git.Fs.State.{Fs}
use myos_git.File.State.{Kernel, fdfile}
use myos_git.File.Calls.{sys_close, cleared}
use myos_git.File.Calls.Closing.{sys_close-sys_close}

-- Block 20 is free; the files have the block 7, and nothing behind it.
abbrev one_block : Fs
one_block = record {
  blk_bitmap = λ w. if w == 0 then 1048576 else 0;
  ino_table = λ i. record { di_size = 4096; di_type = 0; block = λ j. if j == 0 then 7 else 0 };
  disk = λ b p. p % 256;
  pages_left = 20;
}

-- Two bytes wait at the keyboard.
abbrev console : Terminal
console = record {
  kbs = record { buf = λ a. 97; rpos = 1; wpos = 3 };
  screen = record { xpos = 0; ypos = 0; video = λ a. 0 };
}

-- File 0 at the given offset, with two references from the descriptors 4 and 5; the other files are
-- unused.
abbrev kernel_at : ℕ → Kernel
kernel_at offset = record {
  fs = one_block;
  filetable = λ f.
      if f == 0
      then record { refcount = pos 2; offset = offset; inode = some 3; file_type = fdfile }
      else cleared;
  fdtable = λ fd. if fd == 4 then some 0 else if fd == 5 then some 0 else none;
  terminal = console;
  memory = λ a. (a + 1) % 256;
}

sys_close-sys_close_example :
    let once = sys_close (pos 4) (kernel_at 0) in
    let twice = sys_close (pos 4) once.1 in
    (once.0 ≡ pos 0)
    × (twice.0 ≡ pos 0)
    × (twice.1.filetable 0 ≡ cleared)
    × (twice.1.fdtable 5 ≡ some 0)
sys_close-sys_close_example =
    sys_close-sys_close 4 5 0 (kernel_at 0) (omega arith) (λ e. omega arith) refl refl refl
