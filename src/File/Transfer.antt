-- ===== src/File/Transfer.antt =====
-- `file_read`, `file_write`, `cons_read` and `cons_write` of kernel/file.c. A loop has `count` rounds of
-- fuel, since each of its rounds moves at least one byte.
pub mod Reading
pub mod Writing
pub mod Written
pub mod Characters
use myos_git.Prelude.{
  ℕ, zero, suc, ◌+◌, ◌-◌, ◌*◌, ◌/◌, ◌%◌, Option, none, some, ◌==◌, ltb, if◌then◌else◌, update,
}
use myos_git.Prelude.Int.{ℤ, pos, negsuc}
use myos_git.Prelude.Result.{Res, ok, fault, and_then, ◌>>=◌}
use myos_git.Klib.{Bytes}
use myos_git.Console.Screen.{myputchar}
use myos_git.Console.Keyboard.{Terminal, Kbs, get_kbdata}
use myos_git.Fs.State.{Fs}
use myos_git.Fs.Bitmap.{get_blk}
use myos_git.Fs.Blocks.{Diskno, unset, bread, deref, assign, walk_block}
use myos_git.File.State.{FileType, File, Kernel, lift}

-- `BLKSIZE`.
abbrev pub blksize : ℕ
blksize = 4096

abbrev pub min_of : ℕ → ℕ → ℕ
min_of a b = if ltb b a then b else a

-- `memcpy` from one memory to another.
pub copy_between : Bytes → ℕ → Bytes → ℕ → ℕ → Bytes
copy_between mem dest page src zero = mem
copy_between mem dest page src (suc n) =
    copy_between (update mem dest (page src)) (dest + 1) page (src + 1) n

-- `file->offset += mincount`.
advance : ℕ → ℕ → Kernel → Kernel
advance f n k =
    let file = k.filetable f in
    record k { filetable = update k.filetable f (record file { offset = file.offset + n }) }

-- `file_read` of a file with the inode `ino`, from the loop's test on.
read_loop : (fuel f ino buf count offset n : ℕ) → Diskno → Kernel → Res Kernel ℤ
unfolding advance
read_loop zero f ino buf count offset n diskno k = ok (pos n) k
read_loop (suc fuel) f ino buf count offset n diskno k =
    let filepos = offset + n in
    let coffset = filepos % blksize in
    let mincount = min_of (blksize - coffset) count in
    let round = and_then (lift (walk_block ino (filepos / blksize) diskno 0 k.fs) k) (λ r k1.
      and_then (lift (deref r.1 k1.fs) k1) (λ bno k2.
        if bno == 0
        then ok (negsuc 0) k2
        else and_then (lift (bread bno k2.fs) k2) (λ page k3.
          let k4 = record k3 { memory = copy_between k3.memory buf page coffset mincount } in
          read_loop fuel f ino (buf + mincount) count offset (n + mincount) r.1
            (advance f mincount k4)))) in
    if ltb n count then round else ok (pos n) k

-- `file_read` by the file's inode; NULL has no blocks.
read_inode : Option ℕ → (f buf count offset : ℕ) → Kernel → Res Kernel ℤ
read_inode none f buf count offset k = if count == 0 then ok (pos 0) k else fault
read_inode (some ino) f buf count offset k = read_loop count f ino buf count offset 0 unset k

pub file_read : (f buf count offset : ℕ) → Kernel → Res Kernel ℤ
unfolding read_inode
file_read f buf count offset k = read_inode (k.filetable f).inode f buf count offset k

-- What `get_blk` gave goes to `*diskno`; none is its -1.
new_block : Option ℕ × Fs → Diskno → Kernel → Res Kernel (Option Diskno)
new_block (none, t) diskno k = ok none (record k { fs = t })
new_block (some bno, t) diskno k =
    and_then (lift (assign diskno bno t) k) (λ own k1. ok (some own) k1)

-- The block of the round: the one that is there, or a new one.
own_block : ℕ → Diskno → Kernel → Res Kernel (Option Diskno)
unfolding new_block
own_block bno diskno k =
    let fresh = new_block (get_blk k.fs) diskno k in if bno == 0 then fresh else ok (some diskno) k

-- The page cache written over and flushed, and the offset set.
flush : (f buf mincount curpos bno : ℕ) → Bytes → Kernel → Kernel
unfolding advance
flush f buf mincount curpos bno page k =
    let pbuf = copy_between page curpos k.memory buf mincount in
    let t = k.fs in
    advance f mincount (record k { fs = record t { disk = update t.disk bno pbuf } })

-- A round behind the block's allocation, with the loop's rest.
write_own :
    Option Diskno
    → (f buf mincount curpos : ℕ) → (Diskno → Kernel → Res Kernel ℤ)
    → Kernel
    → Res Kernel ℤ
unfolding flush
write_own none f buf mincount curpos rest k = ok (negsuc 0) k
write_own (some own) f buf mincount curpos rest k = and_then (lift (deref own k.fs) k) (λ bno k1.
    and_then (lift (bread bno k1.fs) k1)
      (λ page k2. rest own (flush f buf mincount curpos bno page k2)))

-- `file_write` of a file with the inode `ino`, from the loop's test on.
pub write_loop : (fuel f ino buf count offset i : ℕ) → Diskno → Kernel → Res Kernel ℤ
unfolding write_own own_block
write_loop zero f ino buf count offset i diskno k = ok (pos count) k
write_loop (suc fuel) f ino buf count offset i diskno k =
    let curpos = i % blksize in
    let mincount = min_of (blksize - curpos) count in
    let round = and_then (lift (walk_block ino (i / blksize) diskno 1 k.fs) k) (λ r k1.
      and_then (lift (deref r.1 k1.fs) k1) (λ bno k2. and_then (own_block bno r.1 k2) (λ own k3.
        write_own own f buf mincount curpos
          (write_loop fuel f ino (buf + mincount) count offset (i + mincount)) k3))) in
    if ltb i (offset + count) then round else ok (pos count) k

write_inode : Option ℕ → (f buf count offset : ℕ) → Kernel → Res Kernel ℤ
write_inode none f buf count offset k = if count == 0 then ok (pos 0) k else fault
write_inode (some ino) f buf count offset k = write_loop count f ino buf count offset offset unset k

pub file_write : (f buf count : ℕ) → Kernel → Res Kernel ℤ
unfolding write_inode
file_write f buf count k = write_inode (k.filetable f).inode f buf count (k.filetable f).offset k

-- A round of `cons_read` with what `get_kbdata` gave, and the loop's rest; the `char` 255 reads as -1.
take_char : Option ℕ × Kbs → (buf i : ℕ) → (Kernel → ℤ × Kernel) → Kernel → ℤ × Kernel
take_char (none, kbs) buf i rest k =
    let t = k.terminal in (pos i, record k { terminal = record t { kbs = kbs } })
take_char (some ch, kbs) buf i rest k =
    let t = k.terminal in
    let k1 = record k { terminal = record t { kbs = kbs } } in
    let after = rest (record k1 { memory = update k1.memory buf ch }) in
    if ch == 255 then (pos i, k1) else after

-- The loops of `cons_read` and `cons_write` with the rounds left, `count - i`.
pub cons_read : (n buf i : ℕ) → Kernel → ℤ × Kernel
unfolding take_char
cons_read zero buf i k = (pos i, k)
cons_read (suc n) buf i k =
    take_char (get_kbdata k.terminal.kbs) buf i (cons_read n (buf + 1) (i + 1)) k

pub cons_write : (n buf i : ℕ) → Kernel → ℤ × Kernel
cons_write zero buf i k = (pos i, k)
cons_write (suc n) buf i k =
    let t = k.terminal in
    cons_write n (buf + 1) (i + 1)
      (record k { terminal = record t { screen = myputchar (k.memory buf) t.screen } })
