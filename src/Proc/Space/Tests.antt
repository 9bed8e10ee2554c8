-- ===== src/Proc/Space/Tests.antt =====
-- A process's memory mapped, and a page of it shared.
use myos_git.Prelude.{ℕ, ◌+◌, ◌*◌, ◌/◌, refl, none, some, [], ◌∷◌, arith, ◌==◌, if◌then◌else◌}
use myos_git.Prelude.Int.{pos}
use myos_git.Prelude.Result.{Returns}
use myos_git.Mm.State.{Mm}
use myos_git.Mm.{present, level_index}
use myos_git.Mm.Tables.{Owner, place, UserAddress, present-zero}
use myos_git.Mm.Tables.Leaf.{table_from}
use myos_git.Mm.Walk.{IsTables}
use myos_git.Mm.Walk.Sample.{memory, free_pages, one_table, table-IsTables, length-free_pages}
use myos_git.Mm.Walk.Range.{IsRange}
use myos_git.Proc.Space.{memmap, share_page}
use myos_git.Proc.Space.Range.{memmap-IsRange, pages_of}
use myos_git.Proc.Space.Shared.{IsShared, share_page-IsShared}

memmap-IsRange_example :
    Returns
      (λ r t.
        IsRange one_table
          (memory 100)
          (free_pages 100)
          200
          (0x400123 / 4096 * 4096)
          0
          7
          (pages_of 9000)
          t)
      (memmap 200 0x400123 9000 (memory 100))
memmap-IsRange_example =
    memmap-IsRange one_table (memory 100) (free_pages 100) 200 0x400123 9000
      (table-IsTables 100 (omega arith)) refl (omega arith) (omega (arith, length-free_pages 100))

-- The parent's tables in the frames 4 to 7 lead from the address 0 to the page 8; the child's table 9 is empty.
abbrev parent_levels : ℕ → ℕ → ℕ
parent_levels f i =
    if i == 0
    then (if f == 4
        then 5 * 4096 + 7
        else if f == 5
        then 6 * 4096 + 7
        else if f == 6
        then 7 * 4096 + 7
        else if f == 7
        then 8 * 4096 + 7
        else 0)
    else 0

abbrev two_spaces : Mm
two_spaces = record {
  phead = some 1;
  pages = λ i.
      if i == 1
      then record { link = some 2; count = pos 0 }
      else if i == 2
      then record { link = some 3; count = pos 0 }
      else if i == 3
      then record { link = none; count = pos 0 }
      else record { link = none; count = pos 1 };
  mem = parent_levels;
  flushed = [];
}

abbrev two_roots : Owner
two_roots f =
    if f == 4
    then some (place 4 0 0)
    else if f == 5
    then some (place 4 1 0)
    else if f == 6
    then some (place 4 2 0)
    else if f == 7
    then some (place 4 3 0)
    else if f == 9
    then some (place 9 0 0)
    else none

two_roots-IsTables : IsTables two_roots two_spaces (1 ∷ 2 ∷ 3 ∷ [])
two_roots-IsTables = record {
  free = record {
    chain = (refl, (refl, (refl, refl)));
    distinct = (refl, (refl, (refl, tt)));
    unused = ((refl, omega arith), ((refl, omega arith), ((refl, omega arith), tt)));
  };
  forest = record { child = λ f r d k i at deep user here. ground (arith, at, here, present-zero) };
  unowned = (refl, (refl, (refl, tt)));
}

null_address : UserAddress 0
unfolding level_index
null_address = omega arith

share_page-IsShared_example :
    Returns (IsShared two_roots two_spaces (1 ∷ 2 ∷ 3 ∷ []) 4 9 0 8) (share_page 4 9 0 two_spaces)
unfolding table_from present level_index
share_page-IsShared_example =
    share_page-IsShared two_roots two_spaces (1 ∷ 2 ∷ 3 ∷ []) 4 9 0 7 two_roots-IsTables refl refl
      (omega arith) null_address (omega arith) refl refl (omega arith) refl refl
