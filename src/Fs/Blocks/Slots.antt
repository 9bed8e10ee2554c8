-- ===== src/Fs/Blocks/Slots.antt =====
-- The block number behind the pointer that `walk_block` sets, and the indirect block it allocates.
use myos_git.Prelude.{
  ℕ, zero, suc, ◌+◌, ◌-◌, ◌/◌, ◌%◌, ◌<◌, ◌≤◌, ◌≡◌, refl, ap, inl, inr, true, false, Option, none,
  some, arith, ◌==◌, ltb, if◌then◌else◌, update, Bool-cases, lt→ltb, Bool-cases,
}
use myos_git.Prelude.Int.{ℤ, pos, negsuc}
use myos_git.Prelude.Result.{Res, ok, fault}
use myos_git.Fs.State.{Fs}
use myos_git.Fs.Bitmap.{get_free_no, set_bitmap, get_blk, take_blk}
use myos_git.Fs.Bitmap.Laws.{is_free, Taken, get_blk-Taken}
use myos_git.Fs.Blocks.{
  Diskno, in_inode, in_buffer, bread, half_at, deref, bread_page, alloc_level, read_level,
  walk_level, walk_block,
}

-- Where the block map of an inode sends a block of the file: the ten direct blocks, then the 2048 of
-- the one indirect block, if there is one.
abbrev pub mapped : Fs → ℕ → ℕ → Option ℕ
mapped s ino fileno =
    let p = s.ino_table ino in
    if ltb fileno 10
    then some (p.block fileno)
    else if p.block 10 == 0
    then none
    else some (half_at (s.disk (p.block 10)) (fileno - 10))

-- What a caller reads: the result, and the number behind the pointer where the result is 0.
abbrev pub looked_up : Res Fs (ℤ × Diskno) → Option ℕ
looked_up (ok (pos n, d) s) = elim (deref d s) [ ok bno t ↦ some bno | fault ↦ none ]
looked_up (ok (negsuc n, d) s) = none
looked_up fault = none

bread_page-room :
    (n block : ℕ) (s : Fs)
    → 0 < n
    → bread_page n block s ≡ ok (s.disk block) (record s { pages_left = n - 1 })
unfolding bread_page
bread_page-room zero block s room = absurd (omega arith)
bread_page-room (suc n) block s room =
    ap (λ k. ok (s.disk block) (record s { pages_left = k })) (omega arith)

pub bread-room :
    (block : ℕ) (s : Fs)
    → 0 < s.pages_left
    → bread block s ≡ ok (s.disk block) (record s { pages_left = s.pages_left - 1 })
unfolding bread
bread-room block s room = bread_page-room s.pages_left block s room

pub walk_block-direct :
    (ino fileno : ℕ) (diskno : Diskno) (alloc : ℕ) (s : Fs)
    → fileno < 10
    → walk_block ino fileno diskno alloc s ≡ ok (pos 0, in_inode ino fileno) s
unfolding walk_block
walk_block-direct ino fileno diskno alloc s small = rw (lt→ltb fileno 10 small)

level_lem : (fileno : ℕ) → fileno < 2058 → (fileno - 10) / 2048 + 10 ≡ 10
level_lem fileno small = omega arith

index_lem : (fileno : ℕ) → fileno < 2058 → (fileno - 10) % 2048 ≡ fileno - 10
index_lem fileno small = omega arith

module _ (ino fileno : ℕ) (diskno : Diskno) (s : Fs) (small : fileno < 2058)
    (room : 0 < s.pages_left) where
  -- Without allocation the pointer leads to the number that the inode's map holds, for each of the
  -- 2058 blocks that a file can have, while a page is left; a missing indirect block gives -1.
  pub walk_block-mapped : looked_up (walk_block ino fileno diskno 0 s) ≡ mapped s ino fileno
  unfolding walk_block read_level bread deref half_at
  walk_block-mapped = elim (Bool-cases (ltb fileno 10)) [
    | inl direct ↦ rw direct
    | inr far ↦
        let in_range : ltb fileno 2058 ≡ true = ground arith in
        elim (Bool-cases ((s.ino_table ino).block 10 == 0)) [
          | inl hole ↦ rw (far, in_range, level_lem fileno small, hole)
          | inr there ↦ rw (
            far,
            in_range,
            level_lem fileno small,
            there,
            bread_page-room s.pages_left ((s.ino_table ino).block 10) s room,
            index_lem fileno small,
          )
        ]
  ]

-- `read_level` with the indirect block `b`.
read_level-room :
    (ino fileno b : ℕ) (s : Fs)
    → fileno < 2058
    → 0 < s.pages_left
    → (s.ino_table ino).block 10 ≡ b
    → read_level ino 10 fileno s
      ≡ ok (pos 0, in_buffer (s.disk b) (fileno - 10)) (record s { pages_left = s.pages_left - 1 })
unfolding read_level bread
read_level-room ino fileno b s small room e =
    rw (e, bread_page-room s.pages_left b s room, index_lem fileno small)

-- The state after the block `b` became the indirect block of the inode.
abbrev pub with_indirect : Fs → ℕ → ℕ → Fs
with_indirect s ino b =
    let p = s.ino_table ino in
    record s {
      ino_table = update s.ino_table ino (record p { block = update p.block 10 b });
      blk_bitmap = set_bitmap s.blk_bitmap b;
    }

-- What `walk_block` does for a block of the file behind the tenth, with no indirect block yet.
abbrev pub Indirect : Fs → ℕ → ℕ → Diskno → Res Fs (ℤ × Diskno) → Type 0
Indirect s ino fileno diskno fault = ⊥
Indirect s ino fileno diskno (ok (pos n, d) t) =
    (n ≡ 0)
    × (b : ℕ) × (b < 32768)
    × (is_free s.blk_bitmap b ≡ true)
    × ((c : ℕ) → c < b → is_free s.blk_bitmap c ≡ false)
    × (is_free t.blk_bitmap b ≡ false)
    × (d ≡ in_buffer (s.disk b) (fileno - 10))
    × (t ≡ record (with_indirect s ino b) { pages_left = s.pages_left - 1 })
Indirect s ino fileno diskno (ok (negsuc n, d) t) =
    (n ≡ 0) × (d ≡ diskno) × (t ≡ s) × ((c : ℕ) → c < 32768 → is_free s.blk_bitmap c ≡ false)

module _ (ino fileno : ℕ) (diskno : Diskno) (s : Fs) (small : fileno < 2058)
    (room : 0 < s.pages_left) where
  walk_level-Indirect :
      (r : Option ℕ)
      → Taken s (take_blk r s)
      → Indirect s ino fileno diskno (walk_level (alloc_level r ino 10 s) ino 10 fileno diskno s)
  unfolding walk_level read_level alloc_level bread take_blk
  walk_level-Indirect none (same, full) = (refl, refl, refl, full)
  walk_level-Indirect (some b) (below, free, first, kept, bits) =
      let u = with_indirect s ino b in
      let word : b % 65536 ≡ b = omega arith in
      let self : (ino == ino) ≡ true = ground arith in
      let e : (u.ino_table ino).block 10 ≡ b = rw self in
      rw (word, read_level-room ino fileno b u small room e)
        (refl, b, below, free, first, rw (bits b) (ground arith), refl, refl)

  -- For a block of the file behind the tenth, with allocation, no indirect block yet and a page
  -- left: the first free block becomes the inode's indirect block and is no longer free, and the
  -- pointer goes to its element as the disk has it, since the block is not cleared. With no free
  -- block the result is -1 and nothing changes.
  pub walk_block-Indirect :
      10 ≤ fileno
      → (s.ino_table ino).block 10 ≡ 0
      → Indirect s ino fileno diskno (walk_block ino fileno diskno 1 s)
  unfolding walk_block get_blk
  walk_block-Indirect far hole =
      let near : ltb fileno 10 ≡ false = ground arith in
      let in_range : ltb fileno 2058 ≡ true = ground arith in
      let unset_yet : ((s.ino_table ino).block 10 == 0) ≡ true = ground arith in
      rw (near, in_range, level_lem fileno small, unset_yet)
        (walk_level-Indirect (get_free_no s.blk_bitmap) (get_blk-Taken s))
