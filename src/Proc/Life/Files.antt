-- ===== src/Proc/Life/Files.antt =====
-- The files' reference counts when a process is forked.
use myos_git.Prelude.{
  ℕ, zero, suc, ◌+◌, ◌≡◌, ◌≢◌, refl, sym, ap, ◌∙◌, inl, inr, Bool, true, false, Option, none, some,
  arith, ◌==◌, if◌then◌else◌, Bool-cases,
}
use myos_git.Prelude.Int.{ℤ, inc, dec}
use myos_git.Klib.Block.{within}
use myos_git.Proc.State.{System}
use myos_git.Proc.Life.{copy_file, copy_files}

abbrev pub points : Option ℕ → ℕ → Bool
points none f = false
points (some g) f = g == f

-- How many of the descriptors fd, …, fd + n - 1 refer to the file.
abbrev pub uses : (ℕ → Option ℕ) → (f fd n : ℕ) → ℕ
uses fdtable f fd zero = 0
uses fdtable f fd (suc n) =
    let rest = uses fdtable f (fd + 1) n in if points (fdtable fd) f then suc rest else rest

-- A count n higher, and n lower.
abbrev pub higher : ℤ → ℕ → ℤ
higher a zero = a
higher a (suc n) = higher (inc a) n

abbrev pub lower : ℤ → ℕ → ℤ
lower a zero = a
lower a (suc n) = lower (dec a) n

-- The child's descriptor after the copy.
abbrev pub inherited : Option ℕ → Option ℕ → Option ℕ
inherited none own = own
inherited (some f) own = some f

-- What the copy of the descriptors fd, …, fd + n - 1 does.
pub record IsCopied (s : System) (parent p fd n : ℕ) (t : System) : Type 0 where
  pub counts :
      (f : ℕ)
      → (t.filetable f).refcount
        ≡ higher (s.filetable f).refcount (uses (s.procs parent).fdtable f fd n)
  pub descriptors :
      (j : ℕ)
      → (t.procs p).fdtable j ≡ (
          if within fd n j
          then inherited ((s.procs parent).fdtable j) ((s.procs p).fdtable j)
          else (s.procs p).fdtable j)
  pub others : (q : ℕ) → q ≢ p → t.procs q ≡ s.procs q

one_of : (fd j : ℕ) → within fd 1 j ≡ true → fd ≡ j
one_of fd j inside = ground arith

copy_file-IsCopied :
    (s : System) (parent p fd : ℕ) (o : Option ℕ)
    → (s.procs parent).fdtable fd ≡ o
    → IsCopied s parent p fd 1 (copy_file p fd o s)
unfolding copy_file
copy_file-IsCopied s parent p fd none e = record {
  counts = λ f. rw e;
  descriptors = λ j. elim (Bool-cases (within fd 1 j)) [
    | inl inside ↦
        let at : (s.procs parent).fdtable j ≡ none =
          ap (s.procs parent).fdtable (sym (one_of fd j inside)) ∙ e in
        rw (inside, at)
    | inr outside ↦ rw outside
  ];
  others = λ q ne. refl;
}
copy_file-IsCopied s parent p fd (some f) e = record {
  counts = λ g. elim (Bool-cases (f == g)) [
    | inl same ↦
        let eq : f ≡ g = ground arith in rw (e, same) (ap (λ x. inc (s.filetable x).refcount) eq)
    | inr other ↦ rw (e, other)
  ];
  descriptors = λ j. elim (Bool-cases (within fd 1 j)) [
    | inl inside ↦
        let at : (s.procs parent).fdtable j ≡ some f =
          ap (s.procs parent).fdtable (sym (one_of fd j inside)) ∙ e in
        let self : (p == p) ≡ true = ground arith in
        let here : (fd == j) ≡ true = ground arith in rw (inside, at, self) (rw here)
    | inr outside ↦
        let self : (p == p) ≡ true = ground arith in
        let away : (fd == j) ≡ false = ground arith in rw (outside, self) (rw away)
  ];
  others = λ q ne. let d : (p == q) ≡ false = ground arith in rw d;
}

higher-if :
    (c : Bool) (a : ℤ) (m : ℕ)
    → higher (higher a (if c then 1 else 0)) m ≡ higher a (if c then suc m else m)
higher-if true a m = refl
higher-if false a m = refl

not_before : (fd n j : ℕ) → within (fd + 1) n j ≡ true → within fd 1 j ≡ false
not_before fd n j later = ground arith

-- The first descriptor and the others behind it.
IsCopied-step :
    (s s1 t : System) (parent p fd n : ℕ)
    → parent ≢ p
    → IsCopied s parent p fd 1 s1
    → IsCopied s1 parent p (fd + 1) n t
    → IsCopied s parent p fd (suc n) t
IsCopied-step s s1 t parent p fd n apart h1 h2 =
    let same = h1.others parent apart in
    record {
      counts = λ f.
          h2.counts f
          ∙ ap (λ q. higher (s1.filetable f).refcount (uses q.fdtable f (fd + 1) n)) same
          ∙ ap (λ a. higher a (uses (s.procs parent).fdtable f (fd + 1) n)) (h1.counts f)
          ∙ higher-if (points ((s.procs parent).fdtable fd) f) (s.filetable f).refcount
              (uses (s.procs parent).fdtable f (fd + 1) n);
      descriptors = λ j.
          h2.descriptors j
          ∙ ap
              (λ q.
                if within (fd + 1) n j
                then inherited (q.fdtable j) ((s1.procs p).fdtable j)
                else (s1.procs p).fdtable j)
              same
          ∙ ap (λ o. if within (fd + 1) n j then inherited ((s.procs parent).fdtable j) o else o)
              (h1.descriptors j)
          ∙ elim (Bool-cases (within (fd + 1) n j)) [
            | inl later ↦
                let all : within fd (suc n) j ≡ true = ground arith in
                rw (later, not_before fd n j later, all)
            | inr other ↦
                let e : within fd (suc n) j ≡ within fd 1 j = ground arith in rw (other, e)
          ];
      others = λ q ne. h2.others q ne ∙ h1.others q ne;
    }

-- `sys_fork` gives the child every open descriptor of its parent, and counts each file once more for each
-- descriptor that refers to it; nothing else of the table of processes changes.
pub copy_files-IsCopied :
    (n : ℕ) (s : System) (parent p fd : ℕ)
    → parent ≢ p
    → IsCopied s parent p fd n (copy_files n parent p fd s)
unfolding copy_files
copy_files-IsCopied zero s parent p fd apart = record {
  counts = λ f. refl;
  descriptors = λ j. let e : within fd 0 j ≡ false = ground arith in rw e;
  others = λ q ne. refl;
}
copy_files-IsCopied (suc n) s parent p fd apart =
    let s1 = copy_file p fd ((s.procs parent).fdtable fd) s in
    IsCopied-step s s1 (copy_files n parent p (fd + 1) s1) parent p fd n apart
      (copy_file-IsCopied s parent p fd ((s.procs parent).fdtable fd) refl)
      (copy_files-IsCopied n s1 parent p (fd + 1) apart)
