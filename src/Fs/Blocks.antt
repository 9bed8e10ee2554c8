-- ===== src/Fs/Blocks.antt =====
-- The blocks of an inode: `bread` and `walk_block` of kernel/fs.c.
pub mod Slots
use myos_git.Prelude.{
  ℕ, zero, suc, ◌+◌, ◌-◌, ◌*◌, ◌/◌, ◌%◌, ◌^◌, Option, none, some, ◌==◌, ltb, if◌then◌else◌, update,
}
use myos_git.Prelude.Int.{ℤ, pos, negsuc}
use myos_git.Klib.{Bytes}
use myos_git.Prelude.Result.{Res, ok, fault, ◌>>=◌}
use myos_git.Fs.State.{Inode, Fs}
use myos_git.Fs.Bitmap.{get_free_no, set_bitmap}

-- What the local `unsigned short *diskno` of the callers points to: nothing yet, NULL, an element of
-- an inode's `block`, or an element of a buffer that holds an indirect block.
pub data Diskno : Type 0 where
  unset : Diskno
  null : Diskno
  in_inode : ℕ → ℕ → Diskno
  in_buffer : Bytes → ℕ → Diskno

-- A page with a copy of the block. The page is never given back, and a failed `alloc_page` is not
-- noticed.
bread_page : ℕ → ℕ → Fs → Res Fs Bytes
bread_page zero block s = fault
bread_page (suc n) block s = ok (s.disk block) (record s { pages_left = n })

unfoldable pub bread : ℕ → Fs → Res Fs Bytes
unfolding bread_page
bread block s = bread_page s.pages_left block s

-- An unsigned short of a buffer.
unfoldable pub half_at : Bytes → ℕ → ℕ
half_at buf i = buf (2 * i) + 256 * buf (2 * i + 1)

-- `*diskno`.
unfoldable pub deref : Diskno → Fs → Res Fs ℕ
unfolding half_at
deref unset s = fault
deref null s = fault
deref (in_inode ino i) s = ok ((s.ino_table ino).block i) s
deref (in_buffer buf i) s = ok (half_at buf i) s

-- `*diskno = bno`. A buffer is a copy, so the block on the disk stays as it is.
unfoldable pub assign : Diskno → ℕ → Fs → Res Fs Diskno
assign unset bno s = fault
assign null bno s = fault
assign (in_inode ino i) bno s =
    let p = s.ino_table ino in
    ok (in_inode ino i) (record s {
      ino_table = update s.ino_table ino (record p { block = update p.block i (bno % 2 ^ 16) });
    })
assign (in_buffer buf i) bno s =
    ok (in_buffer (update (update buf (2 * i) (bno % 256)) (2 * i + 1) (bno / 256 % 256)) i) s

-- The allocation of the indirect block; the result is true if there is one.
alloc_level : Option ℕ → ℕ → ℕ → Fs → Option Fs
alloc_level none ino level s = none
alloc_level (some bno) ino level s =
    let p = s.ino_table ino in
    some (record s {
      ino_table = update s.ino_table ino (record p { block = update p.block level (bno % 2 ^ 16) });
      blk_bitmap = set_bitmap s.blk_bitmap bno;
    })

-- The `bread` of the indirect block, and the slot in it.
read_level : ℕ → ℕ → ℕ → Fs → Res Fs (ℤ × Diskno)
unfolding bread
read_level ino level fileno = λ s.
    (do
      blk ← bread ((s.ino_table ino).block level)
      ok (pos 0, in_buffer blk ((fileno - 10) % 2048)))
      s

walk_level : Option Fs → ℕ → ℕ → ℕ → Diskno → Fs → Res Fs (ℤ × Diskno)
unfolding read_level
walk_level none ino level fileno diskno s = ok (negsuc 0, diskno) s
walk_level (some t) ino level fileno diskno s = read_level ino level fileno t

-- The return value, and the pointer, which a file block number of 2058 and more leaves as it was.
pub walk_block : ℕ → ℕ → Diskno → ℕ → Fs → Res Fs (ℤ × Diskno)
unfolding walk_level alloc_level read_level
walk_block ino fileno diskno alloc s =
    if ltb fileno 10
    then ok (pos 0, in_inode ino fileno) s
    else if ltb fileno 2058
    then (let level = (fileno - 10) / 2048 + 10 in
        if (s.ino_table ino).block level == 0
        then (if alloc == 1
            then walk_level (alloc_level (get_free_no s.blk_bitmap) ino level s) ino level fileno
                diskno s
            else ok (negsuc 0, null) s)
        else read_level ino level fileno s)
    else ok (pos 0, diskno) s
