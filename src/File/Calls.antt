-- ===== src/File/Calls.antt =====
-- The descriptors and the system calls of kernel/file.c. An argument behind the array `fdtable` is memory of
-- something else, and its use is a fault of the model.
pub mod Descriptors
pub mod Closing
mod Tests
use myos_git.Prelude.{ℕ, zero, suc, ◌+◌, Option, none, some, ◌==◌, ltb, if◌then◌else◌, update}
use myos_git.Prelude.Int.{ℤ, pos, negsuc, inc, dec, is_zero}
use myos_git.Prelude.Result.{Res, ok, fault, and_then}
use myos_git.Klib.{Bytes}
use myos_git.Fs.State.{Fs}
use myos_git.Fs.Directory.{Answer, walk_path}
use myos_git.File.State.{FileType, fdeunknown, fdcons, fdfile, File, Kernel, lift}
use myos_git.File.Transfer.{file_read, file_write, cons_read, cons_write}

-- `MAXFILE` and `MAXOPENFILE`.
abbrev pub maxfile : ℕ
maxfile = 256

abbrev pub maxopenfile : ℕ
maxopenfile = 32

-- A `struct file` after `memset`.
abbrev pub cleared : File
cleared = record { refcount = pos 0; offset = 0; inode = none; file_type = fdeunknown }

pub init_files : Kernel → Kernel
init_files k = record k { filetable = λ i. if ltb i maxfile then cleared else k.filetable i }

-- The loop of `allocfd` from `i` on, with the rounds left.
fd_from : (ℕ → Option ℕ) → ℕ → ℕ → ℤ
fd_from fdtable i zero = negsuc 0
fd_from fdtable i (suc n) = or_next (fdtable i) (fd_from fdtable (i + 1) n)
  where
    or_next : Option ℕ → ℤ → ℤ
    or_next none rest = pos i
    or_next (some f) rest = rest

pub allocfd : Kernel → ℤ
unfolding fd_from
allocfd k = fd_from k.fdtable 0 maxopenfile

-- The loop of `allocfile`.
file_from : (ℕ → File) → ℕ → ℕ → Option ℕ
file_from filetable i zero = none
file_from filetable i (suc n) =
    let rest = file_from filetable (i + 1) n in
    if is_zero (filetable i).refcount then some i else rest

clear_file : Option ℕ → Kernel → Option ℕ × Kernel
clear_file none k = (none, k)
clear_file (some f) k = (some f, record k { filetable = update k.filetable f cleared })

-- The index of the file; none is NULL.
pub allocfile : Kernel → Option ℕ × Kernel
unfolding clear_file
allocfile k = clear_file (file_from k.filetable 0 maxfile) k

set_file : ℕ → File → Kernel → Kernel
set_file f file k = record k { filetable = update k.filetable f file }

-- `r < 0` as an int.
abbrev pub is_neg : ℤ → ℕ
is_neg (pos n) = 0
is_neg (negsuc n) = 1

-- The end of `file_open`; a name found has an inode.
opened : Answer → ℕ → Kernel → Res Kernel ℤ
unfolding set_file
opened none f k = fault
opened (some (negsuc n, ino)) f k = ok (negsuc n) k
opened (some (pos n, ino)) f k =
    let file = k.filetable f in ok (pos 0) (set_file f (record file { inode = ino }) k)

pub file_open : (fuel fname f : ℕ) → Kernel → Res Kernel ℤ
unfolding opened
file_open fuel fname f k =
    and_then (lift (walk_path fuel k.memory fname k.fs) k) (λ r k1. opened r f k1)

-- The assignment `fd = allocfd() < 0` gives `fd` the comparison's value.
cons_file : ℕ → Option ℕ × Kernel → ℤ × Kernel
cons_file fd (none, k) = (negsuc 0, k)
cons_file fd (some f, k) =
    let file = k.filetable f in
    (
      pos fd,
      record k {
        filetable =
            update k.filetable f (record file { refcount = inc file.refcount; file_type = fdcons });
        fdtable = update k.fdtable fd (some f);
      },
    )

pub sys_opencons : Kernel → ℤ × Kernel
unfolding cons_file
sys_opencons k =
    let fd = is_neg (allocfd k) in
    let rest = cons_file fd (allocfile k) in if fd == 0 then rest else (pos fd, k)

-- `sys_open` behind `allocfile`; `r = file_open(...) < 0` is the comparison's value too.
open_file : ℕ → (fuel fname : ℕ) → Option ℕ × Kernel → Res Kernel ℤ
open_file fd fuel fname (none, k) = ok (negsuc 0) k
open_file fd fuel fname (some f, k) = and_then (file_open fuel fname f k) (λ r k1.
    let file = k1.filetable f in
    if is_neg r == 0
    then ok (pos fd) (record k1 {
      filetable =
          update k1.filetable f
            (record file { offset = 0; refcount = inc file.refcount; file_type = fdfile });
      fdtable = update k1.fdtable fd (some f);
    })
    else ok (pos (is_neg r)) k1)

pub sys_open : (fuel fname : ℕ) → Kernel → Res Kernel ℤ
unfolding open_file
sys_open fuel fname k =
    let fd = is_neg (allocfd k) in
    let rest = open_file fd fuel fname (allocfile k) in if fd == 0 then rest else ok (pos fd) k

-- `current->fdtable[fd]`.
pub fd_entry : ℤ → Kernel → Res Kernel (Option ℕ)
fd_entry (negsuc n) k = fault
fd_entry (pos fd) k = if ltb fd maxopenfile then ok (k.fdtable fd) k else fault

returned : ℤ × Kernel → Res Kernel ℤ
returned (v, k) = ok v k

-- The `switch` of `sys_read`; NULL has no type.
read_file : Option ℕ → (buf count : ℕ) → Kernel → Res Kernel ℤ
read_file none buf count k = fault
read_file (some f) buf count k = by_type (k.filetable f).file_type
  where
    by_type : FileType → Res Kernel ℤ
    by_type fdfile = file_read f buf count (k.filetable f).offset k
    by_type fdcons = returned (cons_read count buf 0 k)
    by_type fdeunknown = ok (negsuc 0) k

pub sys_read : ℤ → (buf count : ℕ) → Kernel → Res Kernel ℤ
unfolding read_file
sys_read fd buf count k = and_then (fd_entry fd k) (λ pfile k1. read_file pfile buf count k1)

write_file : Option ℕ → (buf count : ℕ) → Kernel → Res Kernel ℤ
write_file none buf count k = fault
write_file (some f) buf count k = by_type (k.filetable f).file_type
  where
    by_type : FileType → Res Kernel ℤ
    by_type fdfile = file_write f buf count k
    by_type fdcons = returned (cons_write count buf 0 k)
    by_type fdeunknown = ok (negsuc 0) k

pub sys_write : ℤ → (buf count : ℕ) → Kernel → Res Kernel ℤ
unfolding write_file
sys_write fd buf count k = and_then (fd_entry fd k) (λ pfile k1. write_file pfile buf count k1)

-- `sys_close` of the file in the slot.
close_file : ℕ → Option ℕ → Kernel → ℤ × Kernel
close_file fd none k = (negsuc 0, k)
close_file fd (some f) k =
    let file = k.filetable f in
    let count = dec file.refcount in
    (
      pos 0,
      (if is_zero count
          then record k {
            fdtable = update k.fdtable fd none;
            filetable =
                update k.filetable f
                  (record { refcount = count; offset = 0; inode = none; file_type = fdeunknown });
          }
          else record k { filetable = update k.filetable f (record file { refcount = count }) }),
    )

pub sys_close : ℤ → Kernel → ℤ × Kernel
unfolding close_file
sys_close (negsuc n) k = (negsuc 0, k)
sys_close (pos fd) k =
    let rest = close_file fd (k.fdtable fd) k in if ltb 31 fd then (negsuc 0, k) else rest

-- `whence` is not used; the message reads the inode's size, so NULL there is a fault as well.
seek_file : Option ℕ → ℕ → Kernel → Res Kernel ℤ
seek_file none offset k = ok (negsuc 0) k
seek_file (some f) offset k = sized (k.filetable f).inode
  where
    sized : Option ℕ → Res Kernel ℤ
    sized none = fault
    sized (some ino) =
        let file = k.filetable f in
        ok (pos offset)
          (record k { filetable = update k.filetable f (record file { offset = offset }) })

pub sys_lseek : ℤ → (offset : ℕ) → Kernel → Res Kernel ℤ
unfolding seek_file
sys_lseek fd offset k = and_then (fd_entry fd k) (λ pfile k1. seek_file pfile offset k1)
