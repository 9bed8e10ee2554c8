-- ===== src/Image/Blank/Free.antt =====
-- The free blocks of a blank image.
use mathlib.Core.Path.{subst}
use myos_git.Prelude.{
  ℕ, zero, suc, ◌+◌, ◌%◌, ◌<◌, ◌≤◌, ◌≡◌, refl, inl, inr, true, false, not, ◌&&◌, arith, ◌==◌, leb,
  All, range, Bool-cases,
}
use myos_git.Prelude.Bits.{bit}
use myos_git.Klib.Block.{within}
use myos_git.Fs.Bitmap.{Bitmap, set_bitmap}
use myos_git.Fs.Bitmap.Laws.{is_free, is_free-set_bitmap}
use myos_git.Image.State.{Image}
use myos_git.Image.Blank.{clear_first, all_free, init_image}

clear_first_lem :
    (i n : ℕ) (bitmap : Bitmap) (c : ℕ)
    → is_free (clear_first i n bitmap) c ≡ (not (within i n c) && is_free bitmap c)
unfolding clear_first
clear_first_lem i zero bitmap c = let e : within i 0 c ≡ false = ground arith in rw e
clear_first_lem i (suc n) bitmap c =
    ground (arith, clear_first_lem (i + 1) n (set_bitmap bitmap i) c, is_free-set_bitmap bitmap i c)

-- Every bit of a full word.
ones : All (λ k. bit k 4294967295 ≡ 1) (range 0 32)
unfolding bit
ones = (
  refl,
  (
    refl,
    (
      refl,
      (
        refl,
        (
          refl,
          (
            refl,
            (
              refl,
              (
                refl,
                (
                  refl,
                  (
                    refl,
                    (
                      refl,
                      (
                        refl,
                        (
                          refl,
                          (
                            refl,
                            (
                              refl,
                              (
                                refl,
                                (
                                  refl,
                                  (
                                    refl,
                                    (
                                      refl,
                                      (
                                        refl,
                                        (
                                          refl,
                                          (
                                            refl,
                                            (
                                              refl,
                                              (
                                                refl,
                                                (
                                                  refl,
                                                  (
                                                    refl,
                                                    (
                                                      refl,
                                                      (refl, (refl, (refl, (refl, (refl, tt))))),
                                                    ),
                                                  ),
                                                ),
                                              ),
                                            ),
                                          ),
                                        ),
                                      ),
                                    ),
                                  ),
                                ),
                              ),
                            ),
                          ),
                        ),
                      ),
                    ),
                  ),
                ),
              ),
            ),
          ),
        ),
      ),
    ),
  ),
)

all_range : (P : ℕ → Type 0) (i n k : ℕ) → All P (range i n) → i ≤ k → k < i + n → P k
all_range P i zero k all ge lt = absurd (omega arith)
all_range P i (suc n) k (first, rest) ge lt = elim (Bool-cases (i == k)) [
  | inl same ↦ let e : i ≡ k = ground arith in subst P e first
  | inr other ↦ all_range P (i + 1) n k rest (ground arith) (omega arith)
]

all_free_lem : (c : ℕ) → is_free all_free c ≡ true
unfolding is_free
all_free_lem c =
    let e : bit (c % 32) 4294967295 ≡ 1 =
      all_range (λ k. bit k 4294967295 ≡ 1) 0 32 (c % 32) ones (omega arith) (omega arith) in
    rw e

-- In the blank image the blocks from 14 on are free, and the 14 blocks that hold the boot block, the
-- super block, the bitmaps and the inodes are not; the inode 0 is the only one that is taken, and it is an empty
-- directory.
pub init_image-is_free :
    (s : Image) (c : ℕ)
    → (is_free (init_image s).blk_bitmap c ≡ leb 14 c)
      × (is_free (init_image s).ino_bitmap c ≡ not (c == 0))
      × (((init_image s).ino_table 0).di_size ≡ 0)
unfolding init_image
init_image-is_free s c = (
  ground (arith, clear_first_lem 0 14 all_free c, all_free_lem c),
  ground (arith, is_free-set_bitmap all_free 0 c, all_free_lem c),
  refl,
)
