-- ===== src/Image/State.antt =====
-- The state of scripts/mkxxx.c.
use myos_git.Prelude.{ℕ}
use myos_git.Klib.{Bytes}
use myos_git.Fs.State.{Inode}
use myos_git.Fs.Bitmap.{Bitmap}

-- The two bitmaps, the inode table, and the other blocks of the image that is mapped at `img_addr`. The bitmaps'
-- and the table's own blocks, 2 to 13, are never handed out.
pub record Image : Type 0 where
  pub blk_bitmap : Bitmap
  pub ino_bitmap : Bitmap
  pub ino_table : ℕ → Inode
  pub img : ℕ → Bytes
