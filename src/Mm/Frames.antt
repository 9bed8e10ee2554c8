-- ===== src/Mm/Frames.antt =====
-- The list of free page frames: `init_page`, `alloc_page` and `free_page`.
pub mod Boot
use myos_git.Prelude.{
  ℕ, zero, suc, ◌+◌, ◌-◌, ◌/◌, ◌≤◌, ◌<◌, ◌^◌, ◌≡◌, refl, sym, ap, ◌∙◌, ◌≢◌, ◌⊎◌, inl, inr, true,
  false, Option, none, some, List, [], ◌∷◌, ◌++◌, bit_and, arith, ◌==◌, update, has, Distinct, All,
  range,
}
use myos_git.Prelude.Int.{ℤ, pos, dec}
use mathlib.Core.Path.{subst}
use myos_git.Mm.State.{Mm, Page}
use myos_git.Mm.{
  take_page, alloc_from, put_page, alloc_page, free_page, init_page, link_down, count_all,
  page_size,
}

-- From `h` the links lead through the pages `xs`, in this order, to NULL.
abbrev pub Chain : (ℕ → Page) → Option ℕ → List ℕ → Type 0
Chain pages h [] = h ≡ none
Chain pages h (p ∷ xs) = (h ≡ some p) × Chain pages (pages p).link xs

abbrev pub Unused : (ℕ → Page) → ℕ → Type 0
Unused pages p = ((pages p).count ≡ pos 0) × (p < 2 ^ 52)

-- `xs` are the free pages: linked from `phead`, none of them twice, none of them counted.
pub record IsFree (s : Mm) (xs : List ℕ) : Type 0 where
  pub chain : Chain s.pages s.phead xs
  pub distinct : Distinct xs
  pub unused : All (Unused s.pages) xs

pub Chain-update :
    (pages : ℕ → Page) (h : Option ℕ) (p : ℕ) (v : Page) (xs : List ℕ)
    → has p xs ≡ false
    → Chain pages h xs
    → Chain (update pages p v) h xs
Chain-update pages h p v [] out c = c
Chain-update pages h p v (x ∷ xs) out c = ground (arith, Chain-update pages (pages x).link p v xs)

==_refl : (p : ℕ) → (p == p) ≡ true
==_refl p = ground arith

pub Chain-push :
    (pages : ℕ → Page) (h : Option ℕ) (p : ℕ) (c : ℤ) (xs : List ℕ)
    → has p xs ≡ false
    → Chain pages h xs
    → Chain (update pages p (record { link = h; count = c })) (some p) (p ∷ xs)
Chain-push pages h p c xs out l = (refl, rw (==_refl p) (Chain-update pages h p _ xs out l))

pub Unused-update :
    (pages : ℕ → Page) (p : ℕ) (v : Page) (xs : List ℕ)
    → has p xs ≡ false
    → All (Unused pages) xs
    → All (Unused (update pages p v)) xs
Unused-update pages p v [] out u = tt
Unused-update pages p v (x ∷ xs) out u = ground (arith, Unused-update pages p v xs)

-- What `alloc_page` did to the state `s` when it returned the page `p`, with `xs` left free.
pub record IsTaken (s : Mm) (flags p : ℕ) (xs : List ℕ) (t : Mm) : Type 0 where
  pub free : IsFree t xs
  pub counted : (t.pages p).count ≡ pos 1
  pub zeroed : (bit_and flags 1 == 0) ≡ false → (i : ℕ) → t.mem p i ≡ 0
  pub others : (q : ℕ) → q ≢ p → (t.pages q ≡ s.pages q) × (t.mem q ≡ s.mem q)
  pub kept : (bit_and flags 1 == 0) ≡ true → t.mem ≡ s.mem

module _ {s : Mm} (flags : ℕ) where
  pub take_page-IsTaken :
      (p : ℕ) (xs : List ℕ) → IsFree s (p ∷ xs) → IsTaken s flags p xs (take_page flags p s)
  unfolding take_page
  take_page-IsTaken p xs f = record {
    free = record {
      chain = Chain-update s.pages (s.pages p).link p _ xs f.distinct.0 f.chain.1;
      distinct = f.distinct.1;
      unused = Unused-update s.pages p _ xs f.distinct.0 f.unused.1;
    };
    counted = ground (arith, f.unused);
    zeroed = λ h i. rw h (ground arith);
    others = λ q ne. (ground arith, ground arith);
    kept = λ h. rw h;
  }

  pub alloc_page-eq-take :
      (p : ℕ) (xs : List ℕ) → IsFree s (p ∷ xs) → alloc_page flags s ≡ (some p, take_page flags p s)
  unfolding alloc_page
  alloc_page-eq-take p xs f = ap (λ h. alloc_from flags h s) f.chain.0

  -- `alloc_page` takes the first free page: it is counted once, it is cleared if PGZERO is set, the
  -- other free pages stay free in their order, and no other page or frame changes.
  pub alloc_page-cons :
      (p : ℕ) (xs : List ℕ)
      → IsFree s (p ∷ xs)
      → ((alloc_page flags s).0 ≡ some p) × IsTaken s flags p xs (alloc_page flags s).1
  unfolding alloc_page
  alloc_page-cons p xs f =
      subst
        (λ h. ((alloc_from flags h s).0 ≡ some p) × IsTaken s flags p xs (alloc_from flags h s).1)
        (sym f.chain.0) (refl, take_page-IsTaken p xs f)

  pub alloc_page-nil : IsFree s [] → alloc_page flags s ≡ (none, s)
  unfolding alloc_page
  alloc_page-nil f = ap (λ h. alloc_from flags h s) f.chain

-- The free list once a page in use has `n` references left.
abbrev pub freed : ℕ → ℕ → List ℕ → List ℕ
freed p zero xs = p ∷ xs
freed p (suc n) xs = xs

abbrev pub IsPut : Mm → ℕ → List ℕ → ℕ → Mm → Type 0
IsPut s p xs n t = IsFree t (freed p n xs) × ((t.pages p).count ≡ pos n) × (t.mem ≡ s.mem)

module _ {s : Mm} (p : ℕ) {xs : List ℕ} where
  put_page-IsFree :
      (n : ℕ) → IsFree s xs → has p xs ≡ false → p < 2 ^ 52 → IsPut s p xs n (put_page p (pos n) s)
  unfolding put_page
  put_page-IsFree zero f out small = (
    record {
      chain = Chain-push s.pages s.phead p (pos 0) xs out f.chain;
      distinct = (out, f.distinct);
      unused = (ground arith, Unused-update s.pages p _ xs out f.unused);
    },
    ground arith,
    refl,
  )
  put_page-IsFree (suc n) f out small = (
    record {
      chain = Chain-update s.pages s.phead p _ xs out f.chain;
      distinct = f.distinct;
      unused = Unused-update s.pages p _ xs out f.unused;
    },
    ground arith,
    refl,
  )

  -- `free_page` of a page that is not free drops one reference; the page becomes the first free
  -- page exactly when that was the last one.
  pub free_page-IsFree :
      (n : ℕ)
      → IsFree s xs
      → has p xs ≡ false
      → p < 2 ^ 52
      → (s.pages p).count ≡ pos (suc n)
      → IsPut s p xs n (free_page (some p) s)
  unfolding free_page
  free_page-IsFree n f out small counted =
      subst (λ c. IsPut s p xs n (put_page p (dec c) s)) (sym counted)
        (put_page-IsFree n f out small)
