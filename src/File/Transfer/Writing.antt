-- ===== src/File/Transfer/Writing.antt =====
-- One round of `file_write`, into a block that is there and into a new one.
use myos_git.Prelude.{
  ℕ, zero, suc, ◌+◌, ◌-◌, ◌/◌, ◌%◌, ◌<◌, ◌≤◌, ◌≡◌, ◌≢◌, refl, ap, ◌∙◌, ◌⊎◌, inl, inr, true, false,
  Option, none, some, arith, ◌&&◌, ◌==◌, ltb, if◌then◌else◌, update, Bool-cases,
}
use myos_git.Prelude.Int.{ℤ, pos, negsuc}
use myos_git.Prelude.Result.{ok, and_then, Returns, returns, Returns-map}
use myos_git.Klib.{Bytes}
use myos_git.Klib.Block.{within}
use myos_git.Fs.State.{Fs}
use myos_git.Fs.Bitmap.{get_blk, take_blk, get_free_no, set_bitmap}
use myos_git.Fs.Bitmap.Laws.{is_free, Taken, get_blk-Taken}
use myos_git.Fs.Blocks.{Diskno, unset, in_inode, deref, assign}
use myos_git.Fs.Blocks.Slots.{bread-room, walk_block-direct}
use myos_git.File.State.{File, Kernel}
use myos_git.File.Transfer.{
  min_of, copy_between, advance, flush, new_block, own_block, write_own, write_loop,
}
use myos_git.File.Transfer.Reading.{copy_between_lem}

write_loop-end :
    (fuel f ino buf count offset i : ℕ) (diskno : Diskno) (k : Kernel)
    → offset + count ≤ i
    → write_loop fuel f ino buf count offset i diskno k ≡ ok (pos count) k
unfolding write_loop
write_loop-end zero f ino buf count offset i diskno k done = refl
write_loop-end (suc fuel) f ino buf count offset i diskno k done =
    let e : ltb i (offset + count) ≡ false = ground arith in rw e

-- The disk with the user's bytes in the block `b`.
abbrev pub overwritten : Kernel → (buf count offset b : ℕ) → ℕ → Bytes
overwritten k buf count offset b c p =
    if (b == c) && within (offset % 4096) count p
    then k.memory (buf + (p - offset % 4096))
    else k.fs.disk c p

abbrev pub moved_on : File → ℕ → File
moved_on file n = record file { offset = file.offset + n }

-- A write at `offset` into the block `b`, which the file system `t` has as the block of the file.
abbrev pub IsWritten : Kernel → Fs → (f buf count offset b : ℕ) → ℤ → Kernel → Type 0
IsWritten k t f buf count offset b v k1 =
    (v ≡ pos count)
    × ((c p : ℕ) → k1.fs.disk c p ≡ overwritten k buf count offset b c p)
    × (k1.fs ≡ record t { disk = k1.fs.disk; pages_left = t.pages_left - 1 })
    × (k1.filetable f ≡ moved_on (k.filetable f) count)
    × (k1.memory ≡ k.memory)

min_of-fits : (count r : ℕ) → count ≤ r → min_of r count ≡ count
min_of-fits count r fits = ground arith

-- The file system with the block `b` in its place in the inode, and not free.
abbrev pub with_block : Fs → (ino fileno b : ℕ) → Fs
with_block s ino fileno b =
    let p = s.ino_table ino in
    record s {
      ino_table = update s.ino_table ino (record p { block = update p.block fileno b });
      blk_bitmap = set_bitmap s.blk_bitmap b;
    }

-- What the write of a missing block returns: -1 with nothing changed if no block is free, and else the
-- bytes in the first free block, which is then in the inode and no longer free.
abbrev pub IsAllocated : Kernel → (f ino buf count offset : ℕ) → ℤ → Kernel → Type 0
IsAllocated k f ino buf count offset v k1 =
    ((v ≡ negsuc 0) × (k1 ≡ k) × ((c : ℕ) → c < 32768 → is_free k.fs.blk_bitmap c ≡ false))
    ⊎ ((b : ℕ) × (b < 32768)
        × (is_free k.fs.blk_bitmap b ≡ true)
        × ((c : ℕ) → c < b → is_free k.fs.blk_bitmap c ≡ false)
        × (is_free k1.fs.blk_bitmap b ≡ false)
        × IsWritten k (with_block k.fs ino (offset / 4096) b) f buf count offset b v k1)

overwritten_lem :
    (k : Kernel) (buf count offset b c p : ℕ)
    → update k.fs.disk b (copy_between (k.fs.disk b) (offset % 4096) k.memory buf count) c p
      ≡ overwritten k buf count offset b c p
overwritten_lem k buf count offset b c p = elim (Bool-cases (b == c)) [
  | inl same ↦
      let e : b ≡ c = ground arith in
      rw (same, copy_between_lem (k.fs.disk b) (offset % 4096) k.memory buf count p)
        (ap
          (λ d.
            if within (offset % 4096) count p
            then k.memory (buf + (p - offset % 4096))
            else k.fs.disk d p)
          e)
  | inr other ↦ rw other
]

module _ (f ino buf count offset : ℕ) (k : Kernel) (fits : offset % 4096 + count ≤ 4096)
    (room : 0 < k.fs.pages_left) where
  -- The part of a round behind the allocation, as the last one.
  write_own-IsWritten :
      (fuel b : ℕ)
      → (k.fs.ino_table ino).block (offset / 4096) ≡ b
      → Returns (IsWritten k k.fs f buf count offset b) (
          write_own
            (some (in_inode ino (offset / 4096)))
            f
            buf
            count
            (offset % 4096)
            (write_loop fuel f ino (buf + count) count offset (offset + count))
            k)
  unfolding write_own deref flush advance
  write_own-IsWritten fuel b e =
      let file = k.filetable f in
      let t = k.fs in
      let pbuf = copy_between (k.fs.disk b) (offset % 4096) k.memory buf count in
      let k1 = record k {
        fs = record t { disk = update t.disk b pbuf; pages_left = t.pages_left - 1 };
        filetable = update k.filetable f (record file { offset = file.offset + count });
      } in
      let self : (f == f) ≡ true = ground arith in
      rw
        (
          e,
          bread-room b k.fs room,
          write_loop-end fuel f ino (buf + count) count offset (offset + count)
              (in_inode ino (offset / 4096)) k1 (omega arith),
        )
        (returns (refl, overwritten_lem k buf count offset b, refl, rw self, refl))

module _ (f ino buf count offset : ℕ) (k : Kernel) (fits : offset % 4096 + count ≤ 4096)
    (room : 0 < k.fs.pages_left) where
  pub write_round-present :
      (fuel : ℕ)
      → 0 < fuel
      → 0 < count
      → offset < 40960
      → (k.fs.ino_table ino).block (offset / 4096) ≢ 0
      → Returns
          (IsWritten k k.fs f buf count offset ((k.fs.ino_table ino).block (offset / 4096)))
          (write_loop fuel f ino buf count offset offset unset k)
  unfolding write_loop deref own_block
  write_round-present zero some_fuel nonempty small there = absurd (omega arith)
  write_round-present (suc fuel) some_fuel nonempty small there =
      let more : ltb offset (offset + count) ≡ true = ground arith in
      let used : ((k.fs.ino_table ino).block (offset / 4096) == 0) ≡ false = ground arith in
      rw
        (
          more,
          walk_block-direct ino (offset / 4096) unset 1 k.fs (omega arith),
          used,
          min_of-fits count (4096 - offset % 4096) (omega arith),
        )
        (write_own-IsWritten f ino buf count offset k fits room fuel
          ((k.fs.ino_table ino).block (offset / 4096)) refl)

  -- The round with what `get_blk` gave for the missing block.
  write_new :
      (fuel : ℕ) (r : Option ℕ)
      → Taken k.fs (take_blk r k.fs)
      → Returns (IsAllocated k f ino buf count offset) (
          and_then (new_block (take_blk r k.fs) (in_inode ino (offset / 4096)) k) (λ own k3.
            write_own own f buf count
              (offset % 4096)
              (write_loop fuel f ino (buf + count) count offset (offset + count))
              k3))
  unfolding new_block assign write_own take_blk
  write_new fuel none (same, full) = returns (inl (refl, refl, full))
  write_new fuel (some b) (below, free, first, kept, bits) =
      let word : b % 65536 ≡ b = omega arith in
      let self : (ino == ino) ≡ true = ground arith in
      let here : (offset / 4096 == offset / 4096) ≡ true = ground arith in
      let k2 = record k { fs = with_block k.fs ino (offset / 4096) b } in
      let e : (k2.fs.ino_table ino).block (offset / 4096) ≡ b = rw (self, here) in
      rw word (
        Returns-map (write_own-IsWritten f ino buf count offset k2 fits room fuel b e) (λ v k3 w.
          let taken : (b == b) ≡ true = ground arith in
          inr
            (b, below, free, first, ap (λ t. is_free t.blk_bitmap b) w.2 ∙ rw (bits b, taken), w)))

  pub write_round-absent :
      (fuel : ℕ)
      → 0 < fuel
      → 0 < count
      → offset < 40960
      → (k.fs.ino_table ino).block (offset / 4096) ≡ 0
      → Returns
          (IsAllocated k f ino buf count offset)
          (write_loop fuel f ino buf count offset offset unset k)
  unfolding write_loop deref own_block get_blk
  write_round-absent zero some_fuel nonempty small missing = absurd (omega arith)
  write_round-absent (suc fuel) some_fuel nonempty small missing =
      let more : ltb offset (offset + count) ≡ true = ground arith in
      let absent : ((k.fs.ino_table ino).block (offset / 4096) == 0) ≡ true = ground arith in
      rw
        (
          more,
          walk_block-direct ino (offset / 4096) unset 1 k.fs (omega arith),
          absent,
          min_of-fits count (4096 - offset % 4096) (omega arith),
        )
        (write_new fuel (get_free_no k.fs.blk_bitmap) (get_blk-Taken k.fs))
