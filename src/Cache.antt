-- ===== src/Cache.antt =====
-- The page cache, kernel/cache.c. A `struct pagecache *` into `pcaches` is its index, and the list's head is none.
pub mod Order
mod Tests
use myos_git.Prelude.{
  ℕ, zero, suc, ◌+◌, Bool, false, Option, none, some, ◌==◌, if◌then◌else◌, update,
}
use myos_git.Prelude.Int.{ℤ, pos, negsuc, inc, dec, is_zero}
use myos_git.Mm.State.{Mm}
use myos_git.Mm.{alloc_page}

pub data CacheStatus : Type 0 where
  dirty : CacheStatus
  uptodate : CacheStatus

-- `struct pagecache`; `pp` is the frame of its page, none for NULL.
pub record PageCache : Type 0 where
  pub blockno : ℤ
  pub refcount : ℤ
  pub status : CacheStatus
  pub pp : Option ℕ

-- `pcaches`, and the links of the list with those of `pcachehead`.
pub record Caches : Type 0 where
  pub pcaches : ℕ → PageCache
  pub next : Option ℕ → Option ℕ
  pub prev : Option ℕ → Option ℕ

abbrev pub maxpagecache : ℕ
maxpagecache = 32

-- A link changed.
abbrev pub set_link : (Option ℕ → Option ℕ) → Option ℕ → Option ℕ → Option ℕ → Option ℕ
set_link f none v none = v
set_link f none v (some j) = f (some j)
set_link f (some i) v none = f none
set_link f (some i) v (some j) = if i == j then v else f (some j)

-- A round of `init_cache_page`, with the page that `alloc_page(0)` returned.
unfoldable pub add_cache : ℕ → Option ℕ → Caches → Caches
add_cache i pp s =
    let first = s.next none in
    record {
      pcaches =
          update s.pcaches i
            (record { blockno = negsuc 0; refcount = pos 0; status = uptodate; pp = pp });
      next = set_link (set_link s.next (some i) first) none (some i);
      prev = set_link (set_link s.prev (some i) none) first (some i);
    }

unfoldable pub take_cache : ℕ → Option ℕ × Mm → Caches → Caches × Mm
unfolding add_cache
take_cache i (pp, m) s = (add_cache i pp s, m)

-- The loop from `i` on, with the rounds left.
unfoldable pub add_caches : ℕ → ℕ → Caches × Mm → Caches × Mm
unfolding take_cache
add_caches zero i (s, m) = (s, m)
add_caches (suc n) i (s, m) = add_caches n (i + 1) (take_cache i (alloc_page 0 m) s)

unfoldable pub init_cache_page : Caches × Mm → Caches × Mm
unfolding add_caches
init_cache_page (s, m) =
    add_caches maxpagecache 0
      (record s { next = set_link s.next none none; prev = set_link s.prev none none }, m)

-- The selected block is given to the caller.
unfoldable pub use_cache : ℕ → ℤ → Caches → Caches
use_cache i blockno s =
    let pc = s.pcaches i in
    record s {
      pcaches = update s.pcaches i (record pc { blockno = blockno; refcount = inc pc.refcount });
    }

-- The loop of `read_cache_page` along `prev` from `pc` on, on fuel.
unfoldable pub select_from : ℕ → Option ℕ → Caches → Option ℕ
select_from fuel none s = none
select_from zero (some i) s = none
select_from (suc fuel) (some i) s =
    let rest = select_from fuel (s.prev (some i)) s in
    if is_zero (s.pcaches i).refcount then some i else rest

unfoldable pub give_cache : ℤ → Option ℕ → Caches → Option ℕ × Caches
unfolding use_cache
give_cache blockno none s = (none, s)
give_cache blockno (some i) s = ((s.pcaches i).pp, use_cache i blockno s)

unfoldable pub read_cache_page : ℤ → Caches → Option ℕ × Caches
unfolding select_from give_cache
read_cache_page blockno s = give_cache blockno (select_from maxpagecache (s.prev none) s) s

-- `pc->blockno == blockno`.
abbrev pub same_block : ℤ → ℤ → Bool
same_block (pos a) (pos b) = a == b
same_block (pos a) (negsuc b) = false
same_block (negsuc a) (pos b) = false
same_block (negsuc a) (negsuc b) = a == b

-- A round of `free_cache_page`.
drop_cache : ℤ → ℕ → Caches → Caches
drop_cache blockno i s =
    let pc = s.pcaches i in
    if same_block pc.blockno blockno
    then record s { pcaches = update s.pcaches i (record pc { refcount = dec pc.refcount }) }
    else s

free_from : ℕ → Option ℕ → ℤ → Caches → Caches
unfolding drop_cache
free_from fuel none blockno s = s
free_from zero (some i) blockno s = s
free_from (suc fuel) (some i) blockno s =
    free_from fuel (s.next (some i)) blockno (drop_cache blockno i s)

pub free_cache_page : ℤ → Caches → Caches
unfolding free_from
free_cache_page blockno s = free_from maxpagecache (s.next none) blockno s

-- The loop of `find_cache_page` begins at the head, where its test ends it.
find_from : ℕ → Option ℕ → ℤ → Caches → Option ℕ
find_from fuel none blockno s = none
find_from zero (some i) blockno s = none
find_from (suc fuel) (some i) blockno s =
    let rest = find_from fuel (s.next (some i)) blockno s in
    if same_block (s.pcaches i).blockno blockno then (s.pcaches i).pp else rest

pub find_cache_page : ℤ → Caches → Option ℕ
unfolding find_from
find_cache_page blockno s = find_from maxpagecache none blockno s
