-- ===== src/Fs/State.antt =====
-- The state of kernel/fs.c.
use myos_git.Prelude.{ℕ}
use myos_git.Klib.{Bytes}

-- `struct inode_t`; `block` is the array of 11 block numbers.
pub record Inode : Type 0 where
  pub di_size : ℕ
  pub di_type : ℕ
  pub block : ℕ → ℕ

-- The block bitmap as 32-bit words, the inode table, the disk's blocks of bytes, and how many page
-- frames `alloc_page` can still give to `bread`.
pub record Fs : Type 0 where
  pub blk_bitmap : ℕ → ℕ
  pub ino_table : ℕ → Inode
  pub disk : ℕ → Bytes
  pub pages_left : ℕ
