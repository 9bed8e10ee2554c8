-- ===== src/Fs/Tests.antt =====
-- Runs of kernel/fs.c on a small file system.
use myos_git.Prelude.{ℕ, zero, suc, refl, List, [], ◌∷◌, arith, ◌==◌, if◌then◌else◌}
use myos_git.Klib.{Bytes}
use myos_git.Fs.State.{Fs}
use myos_git.Fs.Bitmap.{get_blk}
use myos_git.Fs.Bitmap.Laws.{Taken, get_blk-Taken}
use myos_git.Fs.Blocks.{unset, walk_block}
use myos_git.Fs.Blocks.Slots.{Indirect, walk_block-Indirect}
use myos_git.Fs.Directory.Lookup.{Entry}

-- A directory block whose fourth entry is the name "a" with the inode 5.
abbrev directory_block : Bytes
directory_block a = if a == 48 then 5 else if a == 50 then 97 else 0

-- Block 20 is free; each inode is a directory of one block.
abbrev small_fs : Fs
small_fs = record {
  blk_bitmap = λ w. if w == 0 then 1048576 else 0;
  ino_table = λ i. record { di_size = 4096; di_type = 1; block = λ j. if j == 0 then 7 else 0 };
  disk = λ b. directory_block;
  pages_left = 9;
}

get_blk-Taken_example : Taken small_fs (get_blk small_fs)
get_blk-Taken_example = get_blk-Taken small_fs

walk_block-Indirect_example : Indirect small_fs 3 12 unset (walk_block 3 12 unset 1 small_fs)
walk_block-Indirect_example =
    walk_block-Indirect 3 12 unset small_fs (omega arith) (omega arith) (omega arith) refl

-- n entries that are all zero.
abbrev empty_entries : ℕ → List Entry
empty_entries zero = []
empty_entries (suc n) = (0, []) ∷ empty_entries n

abbrev listing : List Entry
listing = (0, []) ∷ (0, []) ∷ (0, []) ∷ (5, 97 ∷ []) ∷ empty_entries 252

-- The string "a" at 0.
abbrev name_a : Bytes
name_a a = if a == 0 then 97 else 0
