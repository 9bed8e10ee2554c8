-- ===== src/File/Calls/Closing.antt =====
-- `sys_close`, and how it ends what `sys_opencons` began.
use myos_git.Prelude.{
  ℕ, ◌<◌, ◌≡◌, ◌≢◌, refl, sym, ap, ◌∙◌, ◌⊎◌, inl, inr, true, false, none, some, arith, ◌==◌, ltb,
  if◌then◌else◌, update, Bool-cases,
}
use myos_git.Prelude.Int.{ℤ, pos, negsuc, dec, is_zero}
use myos_git.File.State.{fdeunknown, Kernel}
use myos_git.File.Calls.{cleared, allocfd, sys_opencons, close_file, sys_close}
use myos_git.File.Calls.Descriptors.{IsConsole, sys_opencons-IsConsole}

-- `sys_close` of a descriptor in use: the last reference of the file gives both back, any other is only
-- counted down, and the descriptor stays as it is.
abbrev pub after_close : ℕ → ℕ → Kernel → Kernel
after_close fd f k =
    let file = k.filetable f in
    let count = dec file.refcount in
    if is_zero count
    then record k {
      fdtable = update k.fdtable fd none;
      filetable =
          update k.filetable f
            (record { refcount = count; offset = 0; inode = none; file_type = fdeunknown });
    }
    else record k { filetable = update k.filetable f (record file { refcount = count }) }

close_lem :
    (fd f : ℕ) (k : Kernel)
    → fd < 32
    → k.fdtable fd ≡ some f
    → sys_close (pos fd) k ≡ (pos 0, after_close fd f k)
unfolding sys_close close_file
close_lem fd f k small used = let e : ltb 31 fd ≡ false = ground arith in rw (e, used)

-- Closing a descriptor twice where two descriptors share the file: both calls succeed, and the file is
-- free and cleared while the other descriptor still refers to it.
pub sys_close-sys_close :
    (fd other f : ℕ) (k : Kernel)
    → fd < 32
    → other ≢ fd
    → k.fdtable fd ≡ some f
    → k.fdtable other ≡ some f
    → (k.filetable f).refcount ≡ pos 2
    → let once = sys_close (pos fd) k in
      let twice = sys_close (pos fd) once.1 in
      (once.0 ≡ pos 0)
      × (twice.0 ≡ pos 0)
      × (twice.1.filetable f ≡ cleared)
      × (twice.1.fdtable other ≡ some f)
sys_close-sys_close fd other f k small ne used shared two =
    let self : (f == f) ≡ true = ground arith in
    let apart : (fd == other) ≡ false = ground arith in
    let file = k.filetable f in
    let k1 = record k { filetable = update k.filetable f (record file { refcount = pos 1 }) } in
    let once : sys_close (pos fd) k ≡ (pos 0, k1) = close_lem fd f k small used ∙ rw two in
    let k2 = record k1 {
      fdtable = update k.fdtable fd none;
      filetable = update k1.filetable f cleared;
    } in
    let twice : sys_close (pos fd) k1 ≡ (pos 0, k2) = close_lem fd f k1 small used ∙ rw self in
    rw (once, twice) (refl, refl, rw self, rw apart shared)

-- The tables are as before, but for the file that was used, which is cleared.
abbrev pub IsUndone : Kernel → ℤ × Kernel → Type 0
IsUndone k (v, k2) =
    (v ≡ pos 0)
    × ((j : ℕ) → k2.fdtable j ≡ k.fdtable j)
    × ((g : ℕ)
        → (k2.filetable g ≡ k.filetable g)
          ⊎ ((k2.filetable g ≡ cleared) × (is_zero (k.filetable g).refcount ≡ true)))

undone :
    (k : Kernel) (lowest : ℤ) (r : ℤ × Kernel)
    → IsConsole k lowest r
    → k.fdtable 0 ≡ none
    → r.0 ≡ pos 0
    → IsUndone k (sys_close (pos 0) r.1)
undone k (negsuc n) (v, k1) (one, same) free done = absurd (ground arith)
undone k (pos lowest) (v, k1) (inl (minus, same, full)) free done = absurd (ground arith)
undone k (pos lowest) (v, k1) (inr (f, zero_fd, (ge, lt, unused, below), slot, others, file, rest))
      free done =
    let self : (f == f) ≡ true = ground arith in
    let closed : sys_close (pos 0) k1 ≡ (pos 0, after_close 0 f k1) =
      close_lem 0 f k1 (omega arith) slot in
    rw (closed, file)
      (
        refl,
        λ j. elim (Bool-cases (0 == j)) [
          | inl same ↦ let e : 0 ≡ j = ground arith in rw same (sym free ∙ ap k.fdtable e)
          | inr other ↦ rw other (others j (ground arith))
        ],
        λ g. elim (Bool-cases (f == g)) [
          | inl same ↦
              let e : f ≡ g = ground arith in
              rw same (inr (refl, ap (λ x. is_zero (k.filetable x).refcount) (sym e) ∙ unused))
          | inr other ↦ rw other (inl (rest g (ground arith)))
        ],
      )

-- `sys_close` of descriptor 0 undoes a `sys_opencons` that succeeds with descriptor 0 free: the table of
-- descriptors is as before, and so is the table of files, where the file that was used is cleared.
pub sys_close-sys_opencons :
    (k : Kernel)
    → k.fdtable 0 ≡ none
    → (sys_opencons k).0 ≡ pos 0
    → IsUndone k (sys_close (pos 0) (sys_opencons k).1)
sys_close-sys_opencons k free done =
    undone k (allocfd k) (sys_opencons k) (sys_opencons-IsConsole k) free done
