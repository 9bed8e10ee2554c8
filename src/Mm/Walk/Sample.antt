-- ===== src/Mm/Walk/Sample.antt =====
-- A booted memory as test data: its free pages, and an empty tree of tables.
use myos_git.Prelude.{
  ℕ, ◌+◌, ◌-◌, ◌^◌, ◌≤◌, ◌≡◌, refl, inl, inr, none, some, List, [], ◌∷◌, ◌++◌, arith, update,
  length, length-append, length-range, range, has, false, All,
}
use myos_git.Prelude.Int.{pos}
use myos_git.Mm.State.{Mm}
use myos_git.Mm.{init_page}
use myos_git.Mm.Frames.Boot.{boot_list, init_page-IsFree, has-append, has-range}
use myos_git.Mm.Tables.{Owner, place}
use myos_git.Mm.Walk.{IsTables}
use myos_git.Mm.Walk.Root.{rooted-IsTables}

abbrev pub blank : Mm
blank = record {
  phead = none;
  pages = λ i. record { link = none; count = pos 0 };
  mem = λ f i. 0;
  flushed = [];
}

-- The pages of a booted machine with 256 pages of kernel and n more, and zeros in memory.
abbrev pub memory : ℕ → Mm
memory n = init_page (256 + n) 1048576 blank

abbrev pub free_pages : ℕ → List ℕ
free_pages n = boot_list (256 + n) 256

-- An empty top-level table, in page 200 below the kernel's end.
abbrev pub one_table : Owner
one_table = update (λ f. none) 200 (some (place 200 0 0))

abbrev pub no_table : Owner
no_table f = none

none_owned : (xs : List ℕ) → All (λ p. no_table p ≡ none) xs
none_owned [] = tt
none_owned (x ∷ xs) = (refl, none_owned xs)

pub memory-IsTables : (n : ℕ) → n ≤ 2 ^ 40 → IsTables no_table (memory n) (free_pages n)
memory-IsTables n small = record {
  free = init_page-IsFree (256 + n) 1048576 blank (omega arith) (omega arith) (omega arith);
  forest = record { child = λ f r d k i at deep user here. cc at };
  unowned = none_owned (free_pages n);
}

-- Page 200 is not free.
pub out_200 : (n : ℕ) → has 200 (free_pages n) ≡ false
out_200 n =
    has-append 200 (range 9 151) (range 1 7 ++ range 256 (256 + n - 256))
      (has-range 200 9 151 (inr (omega arith)))
      (has-append 200 (range 1 7) (range 256 (256 + n - 256))
        (has-range 200 1 7 (inr (omega arith)))
        (has-range 200 256 (256 + n - 256) (inl (omega arith))))

pub memory-clear : (n : ℕ) (j : ℕ) → (memory n).mem 200 j ≡ 0
unfolding init_page
memory-clear n j = refl

pub table-IsTables : (n : ℕ) → n ≤ 2 ^ 40 → IsTables one_table (memory n) (free_pages n)
table-IsTables n small =
    rooted-IsTables no_table (memory n) 200 (free_pages n) (memory-IsTables n small) refl
      (out_200 n) (memory-clear n)

pub length-free_pages : (n : ℕ) → length (free_pages n) ≡ 158 + n
length-free_pages n = omega (
  arith,
  length-append {0} (range 9 151) (range 1 7 ++ range 256 (256 + n - 256)),
  length-append {0} (range 1 7) (range 256 (256 + n - 256)),
  length-range 9 151,
  length-range 1 7,
  length-range 256 (256 + n - 256),
)
