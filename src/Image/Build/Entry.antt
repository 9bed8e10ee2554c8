-- ===== src/Image/Build/Entry.antt =====
-- The first entry of an empty directory.
use myos_git.Prelude.{
  ℕ, ◌%◌, ◌<◌, ◌≡◌, ◌⊎◌, refl, inl, inr, true, false, not, ◌&&◌, Option, none, some, arith, ◌==◌,
}
use myos_git.Prelude.Int.{ℤ, pos, negsuc}
use myos_git.Prelude.Result.{Returns, returns}
use myos_git.Fs.Bitmap.{get_free_no}
use myos_git.Fs.Bitmap.Laws.{is_free, Found, get_free_no-Found, is_free-set_bitmap}
use myos_git.Image.State.{Image}
use myos_git.Image.Blocks.{in_inode, store, walk_block, set_inode}
use myos_git.Image.Build.{Place, new_dir_block, extend, dir_blocks, alloc_file}

-- With a free block, the directory gets it as its first, and the entry stands at its beginning; without
-- one the result is -1 and nothing changes.
abbrev pub IsPlaced : Image → ℤ × Option Place → Image → Type 0
IsPlaced s (v, dir) t =
    ((v ≡ negsuc 0)
      × (dir ≡ none)
      × (t ≡ s)
      × ((c : ℕ) → c < 32768 → is_free s.blk_bitmap c ≡ false))
    ⊎ ((b : ℕ) × (b < 32768)
        × (is_free s.blk_bitmap b ≡ true)
        × ((c : ℕ) → c < b → is_free s.blk_bitmap c ≡ false)
        × (v ≡ pos 0)
        × (dir ≡ some (record { blk = b; at = 0 }))
        × ((t.ino_table 0).di_size ≡ 4096)
        × ((t.ino_table 0).block 0 ≡ b)
        × ((c : ℕ) → is_free t.blk_bitmap c ≡ (not (b == c) && is_free s.blk_bitmap c))
        × (t.img ≡ s.img)
        × (t.ino_bitmap ≡ s.ino_bitmap))

new_dir_block-IsPlaced :
    (s : Image) (r : Option ℕ)
    → (s.ino_table 0).di_size ≡ 0
    → Found s.blk_bitmap 0 32768 r
    → Returns (IsPlaced s) (new_dir_block r (in_inode 0 0) s)
unfolding new_dir_block store set_inode
new_dir_block-IsPlaced s none empty full =
    returns (inl (refl, refl, refl, λ c lt. full c (omega arith) (omega arith)))
new_dir_block-IsPlaced s (some b) empty (ge, lt, free, first) =
    let word : b % 65536 ≡ b = omega arith in
    returns (
      inr (
        b,
        lt,
        free,
        λ c below. first c (omega arith) below,
        refl,
        refl,
        rw empty,
        word,
        is_free-set_bitmap s.blk_bitmap b,
        refl,
        refl,
      ))

-- `alloc_file` on an empty directory, as the builder calls it: with a free block, the first one becomes
-- the directory's first block and is no longer free, and the entry stands at its beginning; without one
-- the result is -1 and nothing changes.
pub alloc_file-IsPlaced :
    (s : Image) → (s.ino_table 0).di_size ≡ 0 → Returns (IsPlaced s) (alloc_file s)
unfolding alloc_file dir_blocks walk_block extend
alloc_file-IsPlaced s empty =
    rw empty
      (new_dir_block-IsPlaced s (get_free_no s.blk_bitmap) empty (get_free_no-Found s.blk_bitmap))
