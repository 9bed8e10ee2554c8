-- ===== src/Image/Blank.antt =====
-- The image that `main` of scripts/mkxxx.c makes before it adds a file.
pub mod Free
use myos_git.Prelude.{ℕ, zero, suc, ◌+◌, ◌-◌, ◌^◌, update}
use myos_git.Fs.State.{Inode}
use myos_git.Fs.Bitmap.{Bitmap, set_bitmap}
use myos_git.Image.State.{Image}

-- The loop of `main` over the blocks that hold the tables.
pub clear_first : (i n : ℕ) → Bitmap → Bitmap
clear_first i zero bitmap = bitmap
clear_first i (suc n) bitmap = clear_first (i + 1) n (set_bitmap bitmap i)

abbrev pub all_free : Bitmap
all_free w = 2 ^ 32 - 1

-- The image before `create_file_image`, with the other blocks and inodes as they were.
pub init_image : Image → Image
init_image s = record {
  blk_bitmap = clear_first 0 14 all_free;
  ino_bitmap = set_bitmap all_free 0;
  ino_table = update s.ino_table 0 (record { di_size = 0; di_type = 1; block = λ i. 0 });
  img = s.img;
}
