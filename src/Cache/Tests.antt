-- ===== src/Cache/Tests.antt =====
-- The page cache on lists of one and of all its blocks.
use myos_git.Prelude.{ℕ, refl, none, some, Option, [], ◌∷◌, arith, ◌+◌, if◌then◌else◌, ◌==◌}
use myos_git.Prelude.Int.{pos, negsuc}
use myos_git.Mm.State.{Mm, Page}
use myos_git.Cache.{Caches, PageCache, uptodate, read_cache_page}
use myos_git.Cache.Order.{IsGivenOut, read_cache_page-IsGivenOut}

-- Block 3 is in use, block 5 is not.
abbrev blocks : ℕ → PageCache
blocks i = record {
  blockno = negsuc 0;
  refcount = if i == 3 then pos 1 else pos 0;
  status = uptodate;
  pp = some (i + 10);
}

abbrev three_five : Option ℕ → Option ℕ
three_five none = some 3
three_five (some i) = if i == 3 then some 5 else none

abbrev five_three : Option ℕ → Option ℕ
five_three none = some 5
five_three (some i) = if i == 5 then some 3 else none

abbrev caches : Caches
caches = record { pcaches = blocks; next = five_three; prev = three_five }

abbrev no_page : ℕ → Page
no_page i = record { link = none; count = pos 1 }

abbrev memory : Mm
memory = record { phead = none; pages = no_page; mem = λ f i. 0; flushed = [] }

read_cache_page-IsGivenOut_example :
    IsGivenOut (pos 7) (3 ∷ 5 ∷ []) caches (read_cache_page (pos 7) caches)
read_cache_page-IsGivenOut_example =
    read_cache_page-IsGivenOut (pos 7) (3 ∷ 5 ∷ []) caches (refl, (refl, refl)) (omega arith)
