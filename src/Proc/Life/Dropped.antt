-- ===== src/Proc/Life/Dropped.antt =====
-- The files' reference counts when a process is destroyed.
use myos_git.Prelude.{
  ℕ, zero, suc, ◌+◌, ◌<◌, ◌≤◌, ◌≡◌, ◌≢◌, refl, ap, ◌∙◌, inl, inr, Bool, true, false, Option, none,
  some, arith, ◌==◌, if◌then◌else◌, update, Bool-cases,
}
use myos_git.Prelude.Int.{ℤ, inc, dec, is_zero, dec-inc}
use myos_git.Klib.Block.{within}
use myos_git.File.State.{File}
use myos_git.Proc.State.{System}
use myos_git.Proc.Life.{copy_files, drop_file, drop_files}
use myos_git.Proc.Life.Files.{copy_files-IsCopied, higher, inherited, lower, points, uses}

uses-ext :
    (t1 t2 : ℕ → Option ℕ) (f fd n : ℕ)
    → ((j : ℕ) → fd ≤ j → j < fd + n → t1 j ≡ t2 j)
    → uses t1 f fd n ≡ uses t2 f fd n
uses-ext t1 t2 f fd zero same = refl
uses-ext t1 t2 f fd (suc n) same = rw (
  same fd (omega arith) (omega arith),
  uses-ext t1 t2 f (fd + 1) n (λ j ge lt. same j (omega arith) (omega arith)),
)

counted_down :
    (filetable : ℕ → File) (g f : ℕ)
    → (update filetable g
        (record (filetable g) { refcount = dec (filetable g).refcount })
        f).refcount
      ≡ lower (filetable f).refcount (if g == f then 1 else 0)
counted_down filetable g f = elim (Bool-cases (g == f)) [
  | inl same ↦ let e : g ≡ f = ground arith in rw same (ap (λ x. dec (filetable x).refcount) e)
  | inr other ↦ rw other
]

-- What the loop that drops the files does to their counts.
drop_file-lower :
    (s : System) (p fd : ℕ) (o : Option ℕ) (f : ℕ)
    → ((drop_file p fd o s).filetable f).refcount
      ≡ lower (s.filetable f).refcount (if points o f then 1 else 0)
unfolding drop_file
drop_file-lower s p fd none f = refl
drop_file-lower s p fd (some g) f = elim (Bool-cases (is_zero (dec (s.filetable g).refcount))) [
  | inl last ↦ rw last (counted_down s.filetable g f)
  | inr shared ↦ rw shared (counted_down s.filetable g f)
]

-- Dropping a descriptor touches no other descriptor of the process.
drop_file-table :
    (s : System) (p fd : ℕ) (o : Option ℕ) (j : ℕ)
    → fd < j
    → ((drop_file p fd o s).procs p).fdtable j ≡ (s.procs p).fdtable j
unfolding drop_file
drop_file-table s p fd none j gt = refl
drop_file-table s p fd (some g) j gt =
    let self : (p == p) ≡ true = ground arith in
    let away : (fd == j) ≡ false = ground arith in
    elim (Bool-cases (is_zero (dec (s.filetable g).refcount))) [
      | inl last ↦ rw (last, self) (rw away)
      | inr shared ↦ rw shared
    ]

lower-if :
    (c : Bool) (a : ℤ) (m : ℕ)
    → lower (lower a (if c then 1 else 0)) m ≡ lower a (if c then suc m else m)
lower-if true a m = refl
lower-if false a m = refl

-- `destroy_proc` counts each file down once for each descriptor of the process that refers to it.
pub drop_files-lower :
    (n : ℕ) (s : System) (p fd f : ℕ)
    → ((drop_files n p fd s).filetable f).refcount
      ≡ lower (s.filetable f).refcount (uses (s.procs p).fdtable f fd n)
unfolding drop_files
drop_files-lower zero s p fd f = refl
drop_files-lower (suc n) s p fd f =
    let o = (s.procs p).fdtable fd in
    let s1 = drop_file p fd o s in
    drop_files-lower n s1 p (fd + 1) f
    ∙ ap (lower (s1.filetable f).refcount) (
        uses-ext (s1.procs p).fdtable (s.procs p).fdtable f (fd + 1) n
          (λ j ge lt. drop_file-table s p fd o j (omega arith)))
    ∙ ap (λ a. lower a (uses (s.procs p).fdtable f (fd + 1) n)) (drop_file-lower s p fd o f)
    ∙ lower-if (points o f) (s.filetable f).refcount (uses (s.procs p).fdtable f (fd + 1) n)

higher-inc : (a : ℤ) (m : ℕ) → higher (inc a) m ≡ inc (higher a m)
higher-inc a zero = refl
higher-inc a (suc m) = higher-inc (inc a) m

lower-higher : (a : ℤ) (m : ℕ) → lower (higher a m) m ≡ a
lower-higher a zero = refl
lower-higher a (suc m) =
    ap (λ x. lower (dec x) m) (higher-inc a m)
    ∙ ap (λ x. lower x m) (dec-inc (higher a m))
    ∙ lower-higher a m

inherited-none : (o : Option ℕ) → inherited o none ≡ o
inherited-none none = refl
inherited-none (some f) = refl

-- A child that is destroyed with the descriptors that it was given leaves every file's count as it was
-- before the fork.
pub drop_files-copy_files :
    (s : System) (parent p f : ℕ)
    → parent ≢ p
    → ((j : ℕ) → (s.procs p).fdtable j ≡ none)
    → ((drop_files 32 p 0 (copy_files 32 parent p 0 s)).filetable f).refcount
      ≡ (s.filetable f).refcount
drop_files-copy_files s parent p f apart empty =
    let t = copy_files 32 parent p 0 s in
    let h = copy_files-IsCopied 32 s parent p 0 apart in
    let m = uses (s.procs parent).fdtable f 0 32 in
    drop_files-lower 32 t p 0 f
    ∙ ap (lower (t.filetable f).refcount) (
        uses-ext (t.procs p).fdtable (s.procs parent).fdtable f 0 32 (λ j ge lt.
          h.descriptors j
          ∙ (let inside : within 0 32 j ≡ true = ground arith in
              rw (inside, empty j) (inherited-none ((s.procs parent).fdtable j)))))
    ∙ ap (λ a. lower a m) (h.counts f)
    ∙ lower-higher (s.filetable f).refcount m
