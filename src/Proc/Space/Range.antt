-- ===== src/Proc/Space/Range.antt =====
-- What `memmap` of kernel/proc.c maps.
use myos_git.Prelude.{
  ℕ, zero, suc, ◌+◌, ◌-◌, ◌*◌, ◌/◌, ◌%◌, ◌^◌, ◌≤◌, ◌<◌, ◌≡◌, refl, ap, ◌∙◌, some, List, arith,
  length,
}
use myos_git.Prelude.Result.{and_then, Returns}
use myos_git.Mm.State.{Mm}
use myos_git.Mm.{alloc_page, page_size}
use myos_git.Mm.Tables.{Owner, place}
use myos_git.Mm.Walk.{IsTables}
use myos_git.Mm.Walk.Range.{map_range, IsRange}
use myos_git.Mm.Walk.Range.Whole.{map_range-IsRange}
use myos_git.Proc.Space.{map_page, map_pages, memmap}
use mathlib.Core.Path.{fun_ext}

-- Below 2 ^ 32 the 32-bit addresses of the loop do not wrap.
map_pages-eq-map_range :
    (n pgdir va : ℕ) (s : Mm)
    → va + n * page_size ≤ 2 ^ 32
    → map_pages n pgdir va s ≡ map_range 0 7 n pgdir va s
unfolding map_pages map_range
map_pages-eq-map_range zero pgdir va s h = refl
map_pages-eq-map_range (suc zero) pgdir va s h = refl
map_pages-eq-map_range (suc (suc n)) pgdir va s h =
    let e : (va + page_size) % 2 ^ 32 ≡ va + page_size = omega arith in
    ap (and_then (map_page pgdir va (alloc_page 0 s))) (
      fun_ext λ r. fun_ext λ t.
        ap (λ a. map_pages (suc n) pgdir a t) e
        ∙ map_pages-eq-map_range (suc n) pgdir (va + page_size) t (omega arith))

-- The number of pages of `memmap`, for sizes that do not overflow.
abbrev pub pages_of : ℕ → ℕ
pages_of size = (size + 4095) / 4096

-- Below the last page of 4 GB, and with four free pages for each page asked for, `memmap` maps every page from that of
-- `addr` on, for `size` rounded up to pages, to a free page of its own, for the user to read and write, and
-- the entries of all other pages and address spaces stay.
pub memmap-IsRange :
    (owner : Owner) (s : Mm) (xs : List ℕ) (pgdir addr size : ℕ)
    → IsTables owner s xs
    → owner pgdir ≡ some (place pgdir 0 0)
    → addr / 4096 * 4096 + pages_of size * 4096 < 2 ^ 32
    → 4 * pages_of size ≤ length xs
    → Returns
        (λ r t. IsRange owner s xs pgdir (addr / 4096 * 4096) 0 7 (pages_of size) t)
        (memmap pgdir addr size s)
unfolding memmap
memmap-IsRange owner s xs pgdir addr size w root low room =
    let n : (size + page_size - 1) % 2 ^ 32 / page_size ≡ pages_of size = omega arith in
    let a : addr / page_size * page_size % 2 ^ 32 ≡ addr / 4096 * 4096 = omega arith in
    rw (n, a, map_pages-eq-map_range (pages_of size) pgdir (addr / 4096 * 4096) s (omega arith))
      (map_range-IsRange (pages_of size) 0 7 pgdir (addr / 4096 * 4096) owner s xs w root
        (omega arith) room)
