-- ===== src/Image/Blocks.antt =====
-- `walk_block` of scripts/mkxxx.c, whose indirect block is the image's own. The bitmap's functions have the
-- same text as those of kernel/fs.c.
use myos_git.Prelude.{
  ℕ, ◌+◌, ◌-◌, ◌*◌, ◌/◌, ◌%◌, ◌^◌, Option, none, some, ◌==◌, ltb, if◌then◌else◌, update,
}
use myos_git.Prelude.Int.{ℤ, pos, negsuc}
use myos_git.Prelude.Result.{Res, ok, fault}
use myos_git.Fs.State.{Inode}
use myos_git.Fs.Bitmap.{get_free_no, set_bitmap}
use myos_git.Image.State.{Image}

-- What `unsigned short *diskno` points to: an element of an inode, or of a block of the image.
pub data Pointer : Type 0 where
  unset : Pointer
  null : Pointer
  in_inode : ℕ → ℕ → Pointer
  in_block : ℕ → ℕ → Pointer

-- `*diskno`.
pub load : Pointer → Image → Res Image ℕ
load unset s = fault
load null s = fault
load (in_inode ino i) s = ok ((s.ino_table ino).block i) s
load (in_block b i) s = ok (s.img b (2 * i) + 256 * s.img b (2 * i + 1)) s

unfoldable pub set_inode : ℕ → Inode → Image → Image
set_inode ino p s = record s { ino_table = update s.ino_table ino p }

-- `*diskno = bno`.
unfoldable pub store : Pointer → ℕ → Image → Res Image ℤ
unfolding set_inode
store unset bno s = fault
store null bno s = fault
store (in_inode ino i) bno s =
    let p = s.ino_table ino in
    ok (pos 0) (set_inode ino (record p { block = update p.block i (bno % 2 ^ 16) }) s)
store (in_block b i) bno s =
    let new = update (update (s.img b) (2 * i) (bno % 256)) (2 * i + 1) (bno / 256 % 256) in
    ok (pos 0) (record s { img = update s.img b new })

-- The pointer into the indirect block.
into_level : (ino level fileno : ℕ) → Image → Res Image (ℤ × Pointer)
into_level ino level fileno s =
    ok (pos 0, in_block ((s.ino_table ino).block level) ((fileno - 10) % 2048)) s

new_level : Option ℕ → (ino level fileno : ℕ) → Pointer → Image → Res Image (ℤ × Pointer)
unfolding into_level set_inode
new_level none ino level fileno diskno s = ok (negsuc 0, diskno) s
new_level (some bno) ino level fileno diskno s =
    let p = s.ino_table ino in
    let t = set_inode ino (record p { block = update p.block level (bno % 2 ^ 16) }) s in
    into_level ino level fileno (record t { blk_bitmap = set_bitmap t.blk_bitmap bno })

unfoldable pub walk_block : (ino fileno : ℕ) → Pointer → ℕ → Image → Res Image (ℤ × Pointer)
unfolding new_level into_level
walk_block ino fileno diskno alloc s =
    if ltb fileno 10
    then ok (pos 0, in_inode ino fileno) s
    else if ltb fileno 2058
    then (let level = (fileno - 10) / 2048 + 10 in
        if (s.ino_table ino).block level == 0
        then (if alloc == 1
            then new_level (get_free_no s.blk_bitmap) ino level fileno diskno s
            else ok (negsuc 0, null) s)
        else into_level ino level fileno s)
    else ok (pos 0, diskno) s
