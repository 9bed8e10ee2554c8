-- ===== src/File/Transfer/Written.antt =====
-- What a write leaves on the disk, and the way back through `file_read`.
use mathlib.Core.Path.{subst}
use myos_git.Prelude.{
  ℕ, ◌+◌, ◌-◌, ◌/◌, ◌%◌, ◌<◌, ◌≤◌, ◌≡◌, ◌≢◌, sym, ap, ◌∙◌, inl, inr, true, some, arith, ◌==◌,
  if◌then◌else◌, Bool-cases,
}
use myos_git.Prelude.Int.{ℤ, pos}
use myos_git.Prelude.Result.{and_then, Returns, Returns-and_then, Returns-map}
use myos_git.Klib.Block.{within}
use myos_git.File.State.{Kernel}
use myos_git.File.Transfer.{write_inode, file_write, file_read}
use myos_git.File.Transfer.Reading.{file_read-IsRead, ArePresent, byte_at, moved, moved-count}
use myos_git.File.Transfer.Writing.{IsAllocated, IsWritten, write_round-absent, write_round-present}

module _ (f ino buf count : ℕ) (k : Kernel) (file : (k.filetable f).inode ≡ some ino)
    (nonempty : 0 < count) (fits : (k.filetable f).offset % 4096 + count ≤ 4096)
    (small : (k.filetable f).offset < 40960) (room : 0 < k.fs.pages_left) where
  -- A write of at least one byte at the file's offset, inside one of the first ten blocks, which
  -- the file has already, with a page left: that block holds the user's bytes, nothing else of the
  -- disk changes, the offset moves on, and the result is `count`.
  pub file_write-IsWritten :
      (k.fs.ino_table ino).block ((k.filetable f).offset / 4096) ≢ 0
      → Returns
          (IsWritten k k.fs f buf count
            (k.filetable f).offset
            ((k.fs.ino_table ino).block ((k.filetable f).offset / 4096)))
          (file_write f buf count k)
  unfolding file_write write_inode
  file_write-IsWritten there = rw file (
      write_round-present f ino buf count (k.filetable f).offset k fits room count nonempty nonempty
        small there)

  -- The file's bytes after the write.
  read_back :
      (v : ℤ) (k1 : Kernel) (j : ℕ)
      → IsWritten k k.fs f buf count
          (k.filetable f).offset
          ((k.fs.ino_table ino).block ((k.filetable f).offset / 4096))
          v
          k1
      → j < count
      → byte_at k1.fs ino ((k.filetable f).offset + j) ≡ k.memory (buf + j)
  read_back v k1 j (res, dsk, fs, ft, mem) short =
      let o = (k.filetable f).offset in
      let b = (k.fs.ino_table ino).block (o / 4096) in
      let q : (o + j) / 4096 ≡ o / 4096 = omega arith in
      let self : (b == b) ≡ true = ground arith in
      let inside : within (o % 4096) count ((o + j) % 4096) ≡ true = ground arith in
      let r : (o + j) % 4096 - o % 4096 ≡ j = omega arith in
      ap (λ x. k1.fs.disk ((k1.fs.ino_table ino).block x) ((o + j) % 4096)) q
      ∙ ap (λ s. k1.fs.disk ((s.ino_table ino).block (o / 4096)) ((o + j) % 4096)) fs
      ∙ dsk b ((o + j) % 4096)
      ∙ rw (self, inside, r)

  same_blocks :
      (v : ℤ) (k1 : Kernel)
      → IsWritten k k.fs f buf count
          (k.filetable f).offset
          ((k.fs.ino_table ino).block ((k.filetable f).offset / 4096))
          v
          k1
      → (k.fs.ino_table ino).block ((k.filetable f).offset / 4096) ≢ 0
      → ArePresent k1.fs ino (k.filetable f).offset count
  same_blocks v k1 (res, dsk, fs, ft, mem) there i ge lt missing =
      let e : i ≡ (k.filetable f).offset / 4096 = omega arith in
      there (
        sym (ap (λ s. (s.ino_table ino).block ((k.filetable f).offset / 4096)) fs)
        ∙ ap (λ x. (k1.fs.ino_table ino).block x) (sym e)
        ∙ missing)

  -- What a write inside one of the file's first ten blocks, which the file has already, puts on
  -- the disk can be read back from the same offset, to any place in the user's memory, while pages
  -- are left for the write and for the read.
  pub file_read-file_write :
      (buf2 : ℕ)
      → (k.fs.ino_table ino).block ((k.filetable f).offset / 4096) ≢ 0
      → 11 ≤ k.fs.pages_left + (k.filetable f).offset / 4096
      → (k.filetable f).offset + count ≤ 40960
      → Returns
          (λ v k2.
            (v ≡ pos count)
            × ((a : ℕ)
                → k2.memory a
                  ≡ (if within buf2 count a then k.memory (buf + (a - buf2)) else k.memory a)))
          (and_then
            (file_write f buf count k)
            (λ v k1. file_read f buf2 count (k.filetable f).offset k1))
  file_read-file_write buf2 there pages inside =
      Returns-and_then (λ v k1. file_read f buf2 count (k.filetable f).offset k1)
        (file_write-IsWritten there)
        (λ v k1 w.
          let o_lem : (k.filetable f).offset + 0 ≡ (k.filetable f).offset = omega arith in
          let m : moved (k.filetable f).offset count 0 ≡ count =
            (moved-count (k.filetable f).offset count).0 fits in
          Returns-map
            (file_read-IsRead f ino buf2 count (k.filetable f).offset k1
              (ap (λ x. x.inode) w.3 ∙ file) inside (same_blocks v k1 w there)
              (subst (λ s. 10 ≤ s.pages_left + (k.filetable f).offset / 4096) (sym w.2)
                (omega arith)))
            (λ v2 k2 r. (
              r.0 ∙ ap pos (omega (arith, m)),
              λ a. r.1 a ∙ elim (Bool-cases (within buf2 count a)) [
                | inl hit ↦ rw (m, hit, o_lem) (read_back v k1 (a - buf2) w (ground arith))
                | inr miss ↦ rw (m, miss) (ap (λ mem. mem a) w.4)
              ],
            )))

  -- A write of at least one byte inside one of the first ten blocks, which the file has not yet,
  -- with a page left: the first free block takes the bytes, stands in the inode and is no longer
  -- free; with no free block the result is -1 and nothing changes.
  pub file_write-IsAllocated :
      (k.fs.ino_table ino).block ((k.filetable f).offset / 4096) ≡ 0
      → Returns (IsAllocated k f ino buf count (k.filetable f).offset) (file_write f buf count k)
  unfolding file_write write_inode
  file_write-IsAllocated missing = rw file (
      write_round-absent f ino buf count (k.filetable f).offset k fits room count nonempty nonempty
        small missing)
