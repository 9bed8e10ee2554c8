-- ===== src/File/Transfer/Reading.antt =====
-- What `file_read` copies to the user's memory.
use myos_git.Prelude.{
  ℕ, zero, suc, ◌+◌, ◌-◌, ◌*◌, ◌/◌, ◌%◌, ◌<◌, ◌≤◌, ◌≡◌, ◌≢◌, refl, ap, ◌∙◌, inl, inr, true, false,
  some, arith, ◌==◌, ltb, leb, if◌then◌else◌, update, Bool-cases,
}
use myos_git.Prelude.Int.{ℤ, pos}
use myos_git.Prelude.Result.{Returns, returns, Returns-map}
use myos_git.Klib.{Bytes}
use myos_git.Klib.Block.{within}
use myos_git.Fs.State.{Fs}
use myos_git.Fs.Blocks.{Diskno, unset, in_inode, deref}
use myos_git.Fs.Blocks.Slots.{bread-room, walk_block-direct}
use myos_git.File.State.{Kernel}
use myos_git.File.Transfer.{min_of, copy_between, advance, read_loop, read_inode, file_read}

pub copy_between_lem :
    (mem : Bytes) (dest : ℕ) (page : Bytes) (src n a : ℕ)
    → copy_between mem dest page src n a
      ≡ (if within dest n a then page (src + (a - dest)) else mem a)
unfolding copy_between
copy_between_lem mem dest page src zero a = ground arith
copy_between_lem mem dest page src (suc n) a =
    ground (arith, copy_between_lem (update mem dest (page src)) (dest + 1) page (src + 1) n a)

-- The byte of the file at a position in its direct blocks.
abbrev pub byte_at : Fs → ℕ → ℕ → ℕ
byte_at s ino p = s.disk ((s.ino_table ino).block (p / 4096)) (p % 4096)

-- How many bytes the loop copies from `n` on: up to the end of the block, and then as many whole blocks
-- as cover the rest, or `count` bytes once more.
abbrev pub moved : (offset count n : ℕ) → ℕ
moved offset count n =
    let r = 4096 - (offset + n) % 4096 in
    if leb count n
    then 0
    else if leb count r
    then count
    else if ltb count 4096
    then (r + (if leb count (n + r) then 0 else count))
    else r + 4096 * ((count - n - r + 4095) / 4096)

-- What the loop leaves: the copied bytes, the offset, and a file system with the same disk and inodes.
abbrev pub IsRead : Kernel → (f ino buf count offset n : ℕ) → ℤ → Kernel → Type 0
IsRead k f ino buf count offset n v k1 =
    let total = moved offset count n in
    (v ≡ pos (n + total))
    × ((a : ℕ)
        → k1.memory a
          ≡ (if within buf total a then byte_at k.fs ino (offset + n + (a - buf)) else k.memory a))
    × ((k1.filetable f).offset ≡ (k.filetable f).offset + total)
    × (k1.fs.disk ≡ k.fs.disk)
    × (k1.fs.ino_table ≡ k.fs.ino_table)

-- The blocks that hold the positions from `offset` to `offset + count` are there.
abbrev pub ArePresent : Fs → (ino offset count : ℕ) → Type 0
ArePresent s ino offset count =
    (i : ℕ) → offset / 4096 ≤ i → i * 4096 < offset + count → (s.ino_table ino).block i ≢ 0

-- How far one round goes: to the end of the block or `count` bytes.
abbrev step : (offset count n : ℕ) → ℕ
step offset count n = min_of (4096 - (offset + n) % 4096) count

moved-step :
    (offset count n : ℕ)
    → n < count
    → moved offset count n ≡ step offset count n + moved offset count (n + step offset count n)
moved-step offset count n more = ground arith

-- One round copies the file's bytes.
copied :
    (s : Fs) (ino p : ℕ) (mem : Bytes) (buf m a : ℕ)
    → m ≤ 4096 - p % 4096
    → copy_between mem buf (s.disk ((s.ino_table ino).block (p / 4096))) (p % 4096) m a
      ≡ (if within buf m a then byte_at s ino (p + (a - buf)) else mem a)
copied s ino p mem buf m a short = elim (Bool-cases (within buf m a)) [
  | inl inside ↦
      let lt : a - buf < m = ground arith in
      let q : p / 4096 ≡ (p + (a - buf)) / 4096 = omega arith in
      let r : p % 4096 + (a - buf) ≡ (p + (a - buf)) % 4096 = omega arith in
      rw (
        copy_between_lem mem buf (s.disk ((s.ino_table ino).block (p / 4096))) (p % 4096) m a,
        inside,
        q,
        r,
      )
  | inr outside ↦ rw (
    copy_between_lem mem buf (s.disk ((s.ino_table ino).block (p / 4096))) (p % 4096) m a,
    outside,
  )
]

-- Two blocks of bytes behind each other.
joined :
    {A : Type 0} (buf m l a : ℕ) (x : ℕ → A) (y : A) (p q : ℕ)
    → q ≡ p + m
    → (if within (buf + m) l a
        then x (q + (a - (buf + m)))
        else if within buf m a
        then x (p + (a - buf))
        else y)
      ≡ (if within buf (m + l) a then x (p + (a - buf)) else y)
joined buf m l a x y p q e = elim (Bool-cases (within (buf + m) l a)) [
  | inl second ↦
      let whole : within buf (m + l) a ≡ true = ground arith in
      let same : q + (a - (buf + m)) ≡ p + (a - buf) = ground arith in rw (second, whole, same)
  | inr other ↦ let same : within buf (m + l) a ≡ within buf m a = ground arith in rw (other, same)
]

read_loop-IsRead :
    (fuel f ino buf count offset n : ℕ) (diskno : Diskno) (k : Kernel)
    → count ≤ n + fuel
    → offset + count ≤ 40960
    → ArePresent k.fs ino offset count
    → (n < count → 10 ≤ k.fs.pages_left + (offset + n) / 4096)
    → Returns (IsRead k f ino buf count offset n) (read_loop fuel f ino buf count offset n diskno k)
unfolding read_loop advance deref
read_loop-IsRead zero f ino buf count offset n diskno k enough small there room =
    returns (ground arith, λ a. ground arith, ground arith, refl, refl)
read_loop-IsRead (suc fuel) f ino buf count offset n diskno k enough small there room =
    elim (Bool-cases (ltb n count)) [
      | inr done ↦ rw done (returns (ground arith, λ a. ground arith, ground arith, refl, refl))
      | inl more ↦
          let b = (k.fs.ino_table ino).block ((offset + n) / 4096) in
          let lt : n < count = ground arith in
          let used : b ≢ 0 = there ((offset + n) / 4096) (omega arith) (omega arith) in
          let e : (b == 0) ≡ false = ground arith in
          let m = min_of (4096 - (offset + n) % 4096) count in
          let file = k.filetable f in
          let k1 = record k {
            fs = record k.fs { pages_left = k.fs.pages_left - 1 };
            memory = copy_between k.memory buf (k.fs.disk b) ((offset + n) % 4096) m;
            filetable = update k.filetable f (record file { offset = file.offset + m });
          } in
          let step_lem = moved-step offset count n lt in
          let r : 0 < k.fs.pages_left = omega (arith, room lt) in
          rw
            (
              more,
              walk_block-direct ino ((offset + n) / 4096) diskno 0 k.fs (omega arith),
              e,
              bread-room b k.fs r,
            )
            (Returns-map
              (read_loop-IsRead fuel f ino (buf + m) count offset (n + m)
                (in_inode ino ((offset + n) / 4096)) k1 (ground arith) small there
                (λ short. ground (arith, room lt)))
              (λ v k2 (res, mem, off, dsk, ino_t). (
                res ∙ ap pos (omega (arith, step_lem)),
                λ a.
                    mem a
                    ∙ rw (copied k.fs ino (offset + n) k.memory buf m a (ground arith), step_lem)
                        (joined buf m (moved offset count (n + m)) a (λ p. byte_at k.fs ino p)
                          (k.memory a) (offset + n) (offset + (n + m)) (omega arith)),
                off ∙ ground (arith, step_lem),
                dsk,
                ino_t,
              )))
    ]

-- A read within the first ten blocks of a file, all blocks from `offset` to `offset + count` there
-- and a page left for each block up to the tenth: the user gets the file's bytes from `offset` on,
-- and the result says how many. They can be more than `count`, as `moved` says: a read that goes
-- over a block's end copies `count` bytes again, or whole blocks, behind it.
pub file_read-IsRead :
    (f ino buf count offset : ℕ) (k : Kernel)
    → (k.filetable f).inode ≡ some ino
    → offset + count ≤ 40960
    → ArePresent k.fs ino offset count
    → 10 ≤ k.fs.pages_left + offset / 4096
    → Returns (IsRead k f ino buf count offset 0) (file_read f buf count offset k)
unfolding file_read read_inode
file_read-IsRead f ino buf count offset k e small there room = rw e (
    read_loop-IsRead count f ino buf count offset 0 unset k (omega arith) small there
      (λ more. omega (arith, room)))

-- A read that stays in its block copies `count` bytes, and one that crosses the block's end with a `count` below a
-- block copies more than that.
pub moved-count :
    (offset count : ℕ)
    → (offset % 4096 + count ≤ 4096 → moved offset count 0 ≡ count)
      × (count < 4096
          → 4096 < offset % 4096 + count
          → moved offset count 0 ≡ count + (4096 - offset % 4096))
moved-count offset count = (λ fits. ground arith, λ small over. ground arith)
