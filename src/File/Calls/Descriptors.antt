-- ===== src/File/Calls/Descriptors.antt =====
-- Descriptors and files as `sys_opencons`, `sys_open` and `sys_close` hand them out.
use mathlib.Core.Path.{subst}
use myos_git.Prelude.{
  ℕ, zero, suc, ◌+◌, ◌<◌, ◌≤◌, ◌≡◌, ◌≢◌, refl, sym, ap, ◌∙◌, ◌⊎◌, inl, inr, true, false, Option,
  none, some, arith, ◌==◌, if◌then◌else◌, update, Bool-cases, Option-cases,
}
use myos_git.Prelude.Int.{ℤ, pos, negsuc, is_zero}
use myos_git.File.State.{fdcons, File, Kernel}
use myos_git.File.Calls.{
  cleared, fd_from, allocfd, file_from, clear_file, allocfile, is_neg, cons_file, sys_opencons,
}

-- The lowest descriptor that is not in use, or none of the 32.
abbrev pub IsLowest : (ℕ → Option ℕ) → (i n : ℕ) → ℤ → Type 0
IsLowest fdtable i n (pos fd) =
    (i ≤ fd) × (fd < i + n) × (fdtable fd ≡ none) × ((j : ℕ) → i ≤ j → j < fd → fdtable j ≢ none)
IsLowest fdtable i n (negsuc m) = (m ≡ 0) × ((j : ℕ) → i ≤ j → j < i + n → fdtable j ≢ none)

fd_from-IsLowest : (fdtable : ℕ → Option ℕ) (i n : ℕ) → IsLowest fdtable i n (fd_from fdtable i n)
unfolding fd_from
fd_from-IsLowest fdtable i zero = (refl, λ j ge lt e. omega arith)
fd_from-IsLowest fdtable i (suc n) = elim (Option-cases (fdtable i)) [
  | inl free ↦ rw free (omega arith, omega arith, free, λ j ge lt e. omega arith)
  | inr (f, used) ↦
      rw used (later (fd_from fdtable (i + 1) n) used (fd_from-IsLowest fdtable (i + 1) n))
]
  where
    still : {f : ℕ} (j : ℕ) → fdtable i ≡ some f → j ≡ i → fdtable j ≢ none
    still j used e free =
        let e2 : fdtable i ≡ none = ap fdtable (sym e) ∙ free in ground (arith, used, e2)

    later :
        {f : ℕ} (r : ℤ)
        → fdtable i ≡ some f
        → IsLowest fdtable (i + 1) n r
        → IsLowest fdtable i (suc n) r
    later (pos fd) used (ge, lt, free, below) = (
      omega arith,
      omega arith,
      free,
      λ j from to. elim (Bool-cases (j == i)) [
        | inl same ↦ still j used (ground arith)
        | inr other ↦ below j (ground arith) to
      ],
    )
    later (negsuc m) used (one, all) = (
      one,
      λ j from to. elim (Bool-cases (j == i)) [
        | inl same ↦ still j used (ground arith)
        | inr other ↦ all j (ground arith) (omega arith)
      ],
    )

-- `allocfd` gives the lowest descriptor that is not in use, and -1 with all 32 in use.
pub allocfd-IsLowest : (k : Kernel) → IsLowest k.fdtable 0 32 (allocfd k)
unfolding allocfd
allocfd-IsLowest k = fd_from-IsLowest k.fdtable 0 32

-- The first file of the table that nothing refers to.
abbrev pub IsFirst : (ℕ → File) → (i n : ℕ) → Option ℕ → Type 0
IsFirst filetable i n none = (j : ℕ) → i ≤ j → j < i + n → is_zero (filetable j).refcount ≡ false
IsFirst filetable i n (some f) =
    (i ≤ f)
    × (f < i + n)
    × (is_zero (filetable f).refcount ≡ true)
    × ((j : ℕ) → i ≤ j → j < f → is_zero (filetable j).refcount ≡ false)

file_from-IsFirst :
    (filetable : ℕ → File) (i n : ℕ) → IsFirst filetable i n (file_from filetable i n)
unfolding file_from
file_from-IsFirst filetable i zero = λ j ge lt. absurd (omega arith)
file_from-IsFirst filetable i (suc n) = elim (Bool-cases (is_zero (filetable i).refcount)) [
  | inl free ↦ rw free (omega arith, omega arith, free, λ j ge lt. absurd (omega arith))
  | inr used ↦
      rw used (later (file_from filetable (i + 1) n) used (file_from-IsFirst filetable (i + 1) n))
]
  where
    still :
        (j : ℕ)
        → is_zero (filetable i).refcount ≡ false
        → j ≡ i
        → is_zero (filetable j).refcount ≡ false
    still j used e = ap (λ x. is_zero (filetable x).refcount) e ∙ used

    later :
        (r : Option ℕ)
        → is_zero (filetable i).refcount ≡ false
        → IsFirst filetable (i + 1) n r
        → IsFirst filetable i (suc n) r
    later none used all = λ j from to. elim (Bool-cases (j == i)) [
      | inl same ↦ still j used (ground arith)
      | inr other ↦ all j (ground arith) (omega arith)
    ]
    later (some f) used (ge, lt, free, below) = (
      omega arith,
      omega arith,
      free,
      λ j from to. elim (Bool-cases (j == i)) [
        | inl same ↦ still j used (ground arith)
        | inr other ↦ below j (ground arith) to
      ],
    )

-- The file that `allocfile` hands out was referred to by nothing and is cleared; with all 256 in use the
-- result is NULL and nothing changes.
abbrev pub IsHandedOut : Kernel → Option ℕ × Kernel → Type 0
IsHandedOut k (none, k1) = (k1 ≡ k) × IsFirst k.filetable 0 256 none
IsHandedOut k (some f, k1) =
    (k1 ≡ record k { filetable = update k.filetable f cleared })
    × IsFirst k.filetable 0 256 (some f)

handed_out :
    (k : Kernel) (r : Option ℕ) → IsFirst k.filetable 0 256 r → IsHandedOut k (clear_file r k)
unfolding clear_file
handed_out k none h = (refl, h)
handed_out k (some f) h = (refl, h)

-- `allocfile` hands out the first file that nothing refers to, cleared; with all 256 in use the result is
-- NULL and nothing changes.
pub allocfile-IsHandedOut : (k : Kernel) → IsHandedOut k (allocfile k)
unfolding allocfile
allocfile-IsHandedOut k =
    handed_out k (file_from k.filetable 0 256) (file_from-IsFirst k.filetable 0 256)

-- What `sys_opencons` leaves with the lowest free descriptor `lowest`: the assignment to `fd` stores the
-- comparison, so the new file always goes to descriptor 0, and an open one there is lost, its count kept.
abbrev pub IsConsole : Kernel → ℤ → ℤ × Kernel → Type 0
IsConsole k (negsuc n) (v, k1) = (v ≡ pos 1) × (k1 ≡ k)
IsConsole k (pos lowest) (v, k1) =
    ((v ≡ negsuc 0) × (k1 ≡ k) × IsFirst k.filetable 0 256 none)
    ⊎ ((f : ℕ) × (v ≡ pos 0)
        × IsFirst k.filetable 0 256 (some f)
        × (k1.fdtable 0 ≡ some f)
        × ((j : ℕ) → j ≢ 0 → k1.fdtable j ≡ k.fdtable j)
        × (k1.filetable f
            ≡ record { refcount = pos 1; offset = 0; inode = none; file_type = fdcons })
        × ((g : ℕ) → g ≢ f → k1.filetable g ≡ k.filetable g))

cons_file-IsConsole :
    (k : Kernel) (lowest : ℤ) (r : Option ℕ × Kernel)
    → IsHandedOut k r
    → IsConsole k lowest (let fd = is_neg lowest in if fd == 0 then cons_file fd r else (pos fd, k))
unfolding cons_file
cons_file-IsConsole k (negsuc n) r h = (refl, refl)
cons_file-IsConsole k (pos lowest) (none, k1) (same, all) = inl (refl, same, all)
cons_file-IsConsole k (pos lowest) (some f, k1) (same, first) =
    let self : (f == f) ≡ true = ground arith in
    subst (λ x. IsConsole k (pos lowest) (cons_file 0 (some f, x))) (sym same)
      (inr (
        f,
        refl,
        first,
        refl,
        λ j ne. let e : (0 == j) ≡ false = ground arith in rw e,
        rw self,
        λ g ne. let e : (f == g) ≡ false = ground arith in rw e,
      ))

-- With a descriptor free, `sys_opencons` puts a new file at descriptor 0, whichever descriptor is free: a
-- file that was open there loses the descriptor and keeps its count. With no file free it returns -1
-- and changes nothing, and with no descriptor free it returns 1 and changes nothing.
pub sys_opencons-IsConsole : (k : Kernel) → IsConsole k (allocfd k) (sys_opencons k)
unfolding sys_opencons
sys_opencons-IsConsole k = cons_file-IsConsole k (allocfd k) (allocfile k) (allocfile-IsHandedOut k)
