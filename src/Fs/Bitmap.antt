-- ===== src/Fs/Bitmap.antt =====
-- The bitmaps of kernel/fs.c: a bit that is set stands for a free block.
pub mod Laws
use myos_git.Prelude.{
  ℕ, zero, suc, ◌+◌, ◌-◌, ◌*◌, ◌/◌, ◌%◌, ◌^◌, Option, none, some, bit_and, ◌==◌, if◌then◌else◌,
  update,
}
use myos_git.Fs.State.{Fs}

abbrev pub Bitmap : Type 0
Bitmap = ℕ → ℕ

-- `BITLENGTH`, and the `BLKSIZE * 8` bits of a block.
abbrev pub bitlength : ℕ
bitlength = 32

abbrev pub bits_of_block : ℕ
bits_of_block = 4096 * 8

pub is_blkempty : Bitmap → ℕ → ℕ
is_blkempty bitmap blkno = bit_and (bitmap (blkno / bitlength)) (2 ^ (blkno % bitlength))

pub set_bitmap : Bitmap → ℕ → Bitmap
set_bitmap bitmap blkno =
    update bitmap (blkno / bitlength)
      (bit_and (bitmap (blkno / bitlength)) (2 ^ bitlength - 1 - 2 ^ (blkno % bitlength)))

-- The loop of `get_free_no` from `blkno` on, with the rounds left.
scan : Bitmap → ℕ → ℕ → Option ℕ
scan bitmap blkno zero = none
scan bitmap blkno (suc n) =
    let rest = scan bitmap (blkno + 1) n in
    if is_blkempty bitmap blkno == 0 then rest else some blkno

-- None is -1.
pub get_free_no : Bitmap → Option ℕ
get_free_no bitmap = scan bitmap 0 bits_of_block

unfoldable pub take_blk : Option ℕ → Fs → Option ℕ × Fs
take_blk none s = (none, s)
take_blk (some bno) s = (some bno, record s { blk_bitmap = set_bitmap s.blk_bitmap bno })

unfoldable pub get_blk : Fs → Option ℕ × Fs
unfolding take_blk
get_blk s = take_blk (get_free_no s.blk_bitmap) s
