-- ===== src/Cache/Order.antt =====
-- The order in which kernel/cache.c hands out its blocks.
use myos_git.Prelude.{
  ℕ, zero, suc, ◌≤◌, ◌≡◌, ◌≢◌, refl, sym, ap, ◌∙◌, inl, inr, true, Option, none, some, List, [],
  ◌∷◌, arith, if◌then◌else◌, length, range, Bool-cases,
}
use myos_git.Prelude.Int.{ℤ, pos, negsuc, is_zero, inc}
use myos_git.Mm.State.{Mm}
use myos_git.Cache.{
  Caches, PageCache, select_from, read_cache_page, init_cache_page, maxpagecache, give_cache,
}

-- From `h` the links lead through the blocks and back to the head.
abbrev pub Leads : (Option ℕ → Option ℕ) → Option ℕ → List ℕ → Type 0
Leads link h [] = h ≡ none
Leads link h (i ∷ xs) = (h ≡ some i) × Leads link (link (some i)) xs

-- The first block that nobody uses.
abbrev pub first_unused : (ℕ → PageCache) → List ℕ → Option ℕ
first_unused pcaches [] = none
first_unused pcaches (i ∷ xs) =
    if is_zero (pcaches i).refcount then some i else first_unused pcaches xs

select_from-first_unused :
    (xs : List ℕ) (fuel : ℕ) (h : Option ℕ) (s : Caches)
    → Leads s.prev h xs
    → length xs ≤ fuel
    → select_from fuel h s ≡ first_unused s.pcaches xs
unfolding select_from
select_from-first_unused [] fuel h s l enough = rw l refl
select_from-first_unused (i ∷ xs) zero h s (here, rest) enough = absurd (omega arith)
select_from-first_unused (i ∷ xs) (suc fuel) h s (here, rest) enough =
    rw (here, select_from-first_unused xs fuel (s.prev (some i)) s rest (omega arith)) refl

-- The page of a block; NULL of none.
abbrev page_of : (ℕ → PageCache) → Option ℕ → Option ℕ
page_of pcaches none = none
page_of pcaches (some i) = (pcaches i).pp

-- What `read_cache_page` promises: the page, the links, and what the blocks hold.
pub record IsGivenOut (blockno : ℤ) (xs : List ℕ) (s : Caches) (r : Option ℕ × Caches)
    : Type 0 where
  pub page : r.0 ≡ page_of s.pcaches (first_unused s.pcaches xs)
  pub links : (r.1.next ≡ s.next) × (r.1.prev ≡ s.prev)
  pub taken :
      (i : ℕ)
      → first_unused s.pcaches xs ≡ some i
      → ((r.1.pcaches i).blockno ≡ blockno) × ((r.1.pcaches i).refcount ≡ pos 1)
  pub others : (j : ℕ) → first_unused s.pcaches xs ≢ some j → r.1.pcaches j ≡ s.pcaches j

first_unused-is_zero :
    (pcaches : ℕ → PageCache) (xs : List ℕ) (i : ℕ)
    → first_unused pcaches xs ≡ some i
    → is_zero (pcaches i).refcount ≡ true
first_unused-is_zero pcaches [] i e = absurd (ground (arith, e))
first_unused-is_zero pcaches (j ∷ xs) i e = elim (Bool-cases (is_zero (pcaches j).refcount)) [
  | inl unused ↦ ground (arith, unused, e)
  | inr used ↦ first_unused-is_zero pcaches xs i (ground (arith, used, e))
]

inc-is_zero : (a : ℤ) → is_zero a ≡ true → inc a ≡ pos 1
inc-is_zero (pos zero) e = refl
inc-is_zero (pos (suc n)) e = ground (arith, e)
inc-is_zero (negsuc n) e = ground (arith, e)

give_cache-IsGivenOut :
    (blockno : ℤ) (xs : List ℕ) (s : Caches) (found : Option ℕ)
    → first_unused s.pcaches xs ≡ found
    → IsGivenOut blockno xs s (give_cache blockno found s)
unfolding give_cache
give_cache-IsGivenOut blockno xs s none e = record {
  page = rw e refl;
  links = (refl, refl);
  taken = λ i f. ground (arith, e, f);
  others = λ j n. refl;
}
give_cache-IsGivenOut blockno xs s (some i) e = record {
  page = rw e refl;
  links = (refl, refl);
  taken = λ k f.
      let same : i ≡ k = ground (arith, e, f) in
      let one : inc (s.pcaches i).refcount ≡ pos 1 =
        inc-is_zero (s.pcaches i).refcount (first_unused-is_zero s.pcaches xs i e) in
      rw (sym same) (ground (arith, one));
  others = λ j n. let apart : i ≢ j = λ same. n (e ∙ ap some same) in ground (arith, apart);
}

-- If the list leads from the head along `prev` through at most 32 blocks, `read_cache_page` returns the page of the
-- first of them that nobody uses, which then has the block number and one user; it returns NULL if all are in use.
-- The links and each other block are as they were.
pub read_cache_page-IsGivenOut :
    (blockno : ℤ) (xs : List ℕ) (s : Caches)
    → Leads s.prev (s.prev none) xs
    → length xs ≤ maxpagecache
    → IsGivenOut blockno xs s (read_cache_page blockno s)
unfolding read_cache_page
read_cache_page-IsGivenOut blockno xs s l few =
    rw (select_from-first_unused xs maxpagecache (s.prev none) s l few)
      (give_cache-IsGivenOut blockno xs s (first_unused s.pcaches xs) refl)

-- After `init_cache_page` the list leads along `prev` through the 32 blocks from the first to the last, whatever it
-- was, and none of them has a user.
pub init_cache_page-Leads :
    (s : Caches) (m : Mm)
    → Leads (init_cache_page (s, m)).0.prev ((init_cache_page (s, m)).0.prev none) (range 0 32)
unfolding init_cache_page
init_cache_page-Leads s m = ground arith
