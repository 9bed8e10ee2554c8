-- ===== src/Fs/Bitmap/Laws.antt =====
-- Free blocks, and the one that `get_blk` takes.
use native.Mathlib.Nat.{one-le-pow}
use myos_git.Prelude.{
  ℕ, zero, suc, ◌+◌, ◌-◌, ◌/◌, ◌%◌, ◌^◌, ◌<◌, ◌≤◌, ◌≡◌, refl, ap, ◌∙◌, ◌≢◌, inl, inr, Bool, true,
  false, not, Option, none, some, arith, ◌&&◌, ◌==◌, bit_and, Bool-cases,
}
use myos_git.Prelude.Bits.{bit, bit-lt, bit_and-power, bit-bit_and, bit-mask_ne, bit-mask_self}
use myos_git.Fs.State.{Fs}
use myos_git.Fs.Bitmap.{Bitmap, is_blkempty, set_bitmap, scan, get_free_no, get_blk, take_blk}

-- The block's bit is set.
unfoldable pub is_free : Bitmap → ℕ → Bool
is_free bitmap blkno = bit (blkno % 32) (bitmap (blkno / 32)) == 1

power-pos : (k : ℕ) → 0 < 2 ^ k
power-pos k = one-le-pow k 2 (omega arith)

-- `is_blkempty` is nonzero exactly if the bit is set.
pub is_blkempty_iff :
    (bitmap : Bitmap) (blkno : ℕ) → (is_blkempty bitmap blkno == 0) ≡ not (is_free bitmap blkno)
unfolding is_blkempty is_free
is_blkempty_iff bitmap blkno = elim (Bool-cases (bit (blkno % 32) (bitmap (blkno / 32)) == 1)) [
  | inl set ↦
      let one : bit (blkno % 32) (bitmap (blkno / 32)) ≡ 1 = ground arith in
      rw (set, bit_and-power (blkno % 32) (bitmap (blkno / 32)), one)
        (ground (arith, power-pos (blkno % 32)))
  | inr clear ↦
      let none_set : bit (blkno % 32) (bitmap (blkno / 32)) ≡ 0 =
        ground (arith, bit-lt (blkno % 32) (bitmap (blkno / 32))) in
      rw (clear, bit_and-power (blkno % 32) (bitmap (blkno / 32)), none_set) (ground arith)
]

module _ (bitmap : Bitmap) (blkno other : ℕ) where
  abbrev cleared : ℕ
  cleared = bit_and (bitmap (blkno / 32)) (2 ^ 32 - 1 - 2 ^ (blkno % 32))

  cleared_self : bit (blkno % 32) cleared ≡ 0
  cleared_self = omega (
    arith,
    bit-bit_and (blkno % 32) (bitmap (blkno / 32)) (2 ^ 32 - 1 - 2 ^ (blkno % 32)),
    bit-mask_self 32 (blkno % 32) (omega arith),
  )

  cleared_ne :
      other % 32 ≢ blkno % 32 → bit (other % 32) cleared ≡ bit (other % 32) (bitmap (blkno / 32))
  cleared_ne ne = omega (
    arith,
    bit-bit_and (other % 32) (bitmap (blkno / 32)) (2 ^ 32 - 1 - 2 ^ (blkno % 32)),
    bit-mask_ne 32 (blkno % 32) (other % 32) (omega arith) (omega arith) ne,
    bit-lt (other % 32) (bitmap (blkno / 32)),
  )

  -- `set_bitmap` takes its own block and leaves all others as they are.
  pub is_free-set_bitmap :
      is_free (set_bitmap bitmap blkno) other ≡ (not (blkno == other) && is_free bitmap other)
  unfolding is_free set_bitmap
  is_free-set_bitmap = elim (Bool-cases (blkno / 32 == other / 32)) [
    | inl word ↦
        let e : blkno / 32 ≡ other / 32 = ground arith in
        elim (Bool-cases (blkno % 32 == other % 32)) [
          | inl same ↦
              let r : other % 32 ≡ blkno % 32 = ground arith in
              let self : (blkno == other) ≡ true = ground arith in
              let z : bit (other % 32) cleared ≡ 0 = ap (λ k. bit k cleared) r ∙ cleared_self in
              rw (word, self) (rw z)
          | inr differ ↦
              let d : other % 32 ≢ blkno % 32 = ground arith in
              let ne : (blkno == other) ≡ false = ground arith in
              rw (word, ne)
                (ap (λ b. b == 1) (cleared_ne d ∙ ap (λ w. bit (other % 32) (bitmap w)) e))
        ]
    | inr apart ↦ let ne : (blkno == other) ≡ false = ground arith in rw (apart, ne)
  ]

-- The loop finds the first free block from `blkno` on, if there is one among the `n` next.
abbrev pub Found : Bitmap → ℕ → ℕ → Option ℕ → Type 0
Found bitmap blkno n none = (c : ℕ) → blkno ≤ c → c < blkno + n → is_free bitmap c ≡ false
Found bitmap blkno n (some b) =
    (blkno ≤ b)
    × (b < blkno + n)
    × (is_free bitmap b ≡ true)
    × ((c : ℕ) → blkno ≤ c → c < b → is_free bitmap c ≡ false)

scan-Found : (bitmap : Bitmap) (blkno n : ℕ) → Found bitmap blkno n (scan bitmap blkno n)
unfolding scan
scan-Found bitmap blkno zero = λ c ge lt. absurd (omega arith)
scan-Found bitmap blkno (suc n) = elim (Bool-cases (is_free bitmap blkno)) [
  | inl free ↦
      rw (is_blkempty_iff bitmap blkno, free)
        (omega arith, omega arith, free, λ c ge lt. absurd (omega arith))
  | inr used ↦
      rw (is_blkempty_iff bitmap blkno, used)
        (later (scan bitmap (blkno + 1) n) used (scan-Found bitmap (blkno + 1) n))
]
  where
    later :
        (r : Option ℕ)
        → is_free bitmap blkno ≡ false
        → Found bitmap (blkno + 1) n r
        → Found bitmap blkno (suc n) r
    later none used h = λ c ge lt. elim (Bool-cases (c == blkno)) [
      | inl same ↦ let e : c ≡ blkno = ground arith in rw e used
      | inr other ↦ h c (ground arith) (omega arith)
    ]
    later (some b) used (ge, lt, free, first) = (
      omega arith,
      omega arith,
      free,
      λ c from to. elim (Bool-cases (c == blkno)) [
        | inl same ↦ let e : c ≡ blkno = ground arith in rw e used
        | inr other ↦ first c (ground arith) to
      ],
    )

-- `get_free_no` finds the first free block of a bitmap's block.
pub get_free_no-Found : (bitmap : Bitmap) → Found bitmap 0 32768 (get_free_no bitmap)
unfolding get_free_no
get_free_no-Found bitmap = scan-Found bitmap 0 32768

-- What `get_blk` did: none with nothing changed if no block of the bitmap is free, and else the
-- first free block, which then is taken while all others are as before.
abbrev pub Taken : Fs → Option ℕ × Fs → Type 0
Taken s (none, t) = (t ≡ s) × ((c : ℕ) → c < 32768 → is_free s.blk_bitmap c ≡ false)
Taken s (some b, t) =
    (b < 32768)
    × (is_free s.blk_bitmap b ≡ true)
    × ((c : ℕ) → c < b → is_free s.blk_bitmap c ≡ false)
    × (t ≡ record s { blk_bitmap = t.blk_bitmap })
    × ((c : ℕ) → is_free t.blk_bitmap c ≡ (not (b == c) && is_free s.blk_bitmap c))

take_blk-Taken : (s : Fs) (r : Option ℕ) → Found s.blk_bitmap 0 32768 r → Taken s (take_blk r s)
unfolding take_blk
take_blk-Taken s none h = (refl, λ c lt. h c (omega arith) (omega arith))
take_blk-Taken s (some b) (ge, lt, free, first) = (
  omega arith,
  free,
  λ c below. first c (omega arith) below,
  refl,
  λ c. is_free-set_bitmap s.blk_bitmap b c,
)

-- `get_blk` takes the first free block, which then is not free while all others are as before; with no
-- block of the bitmap free the result is -1 and nothing changes.
pub get_blk-Taken : (s : Fs) → Taken s (get_blk s)
unfolding get_blk get_free_no
get_blk-Taken s = take_blk-Taken s (get_free_no s.blk_bitmap) (scan-Found s.blk_bitmap 0 32768)
