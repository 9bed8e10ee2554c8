-- ===== src/File/State.antt =====
-- The state that the system calls of kernel/file.c work on.
use myos_git.Prelude.{ℕ, Option}
use myos_git.Prelude.Int.{ℤ}
use myos_git.Prelude.Result.{Res, ok, fault}
use myos_git.Klib.{Bytes}
use myos_git.Console.Keyboard.{Terminal}
use myos_git.Fs.State.{Fs}

-- `type` of `struct file`: `FDEUNKNOWN`, `FDCONS` and `FDFILE`.
pub data FileType : Type 0 where
  fdeunknown : FileType
  fdcons : FileType
  fdfile : FileType

-- `struct file`; the inode by its number, none for NULL. An offset is not negative here.
pub record File : Type 0 where
  pub refcount : ℤ
  pub offset : ℕ
  pub inode : Option ℕ
  pub file_type : FileType

-- The file system, `filetable`, `current->fdtable` with the indices of files, none for NULL, the
-- console, and the user's memory. The messages that the calls print for debugging are left out.
pub record Kernel : Type 0 where
  pub fs : Fs
  pub filetable : ℕ → File
  pub fdtable : ℕ → Option ℕ
  pub terminal : Terminal
  pub memory : Bytes

-- A step of the file system within the kernel.
abbrev pub lift {ℓ} : {A : Type ℓ} → Res Fs A → Kernel → Res Kernel A
lift (ok a t) k = ok a (record k { fs = t })
lift fault k = fault
