-- ===== src/Mm/Tests.antt =====
-- Runs of kernel/mm.c on small memories.
use myos_git.Prelude.{
  ℕ, ◌+◌, ◌*◌, ◌≡◌, refl, none, some, List, length, [], ◌∷◌, arith, ◌==◌, if◌then◌else◌, update,
  bit_or,
}
use myos_git.Prelude.Int.{pos}
use myos_git.Prelude.Result.{Returns}
use myos_git.Mm.State.{Mm, Page}
use myos_git.Mm.{page2pa, level_index, present, alloc_page, free_page, insert_page, remove_page}
use myos_git.Mm.Frames.{IsFree, IsPut, IsTaken, alloc_page-cons, free_page-IsFree}
use myos_git.Port.{Event, Device}
use myos_git.Mm.Startup.{kbase, detect_memsize, init_mem}
use myos_git.Mm.Startup.Laid.{IsLaidOut, init_mem-IsLaidOut}
use myos_git.Mm.Tables.{Owner, place, UserAddress, entry_from, present-zero}
use myos_git.Mm.Walk.{IsTables}
use myos_git.Mm.Walk.Insert.{IsInserted, insert_page-IsInserted}
use myos_git.Mm.Walk.Remove.{IsRemoved, remove_page-IsRemoved}

-- Pages 1, 2 and 3 are free, the others are counted once.
abbrev some_pages : ℕ → Page
some_pages i =
    if i == 1
    then record { link = some 2; count = pos 0 }
    else if i == 2
    then record { link = some 3; count = pos 0 }
    else if i == 3
    then record { link = none; count = pos 0 }
    else record { link = none; count = pos 1 }

abbrev empty_memory : Mm
empty_memory = record { phead = some 1; pages = some_pages; mem = λ f i. 0; flushed = [] }

empty_memory-IsFree : IsFree empty_memory (1 ∷ 2 ∷ 3 ∷ [])
empty_memory-IsFree = record {
  chain = (refl, (refl, (refl, refl)));
  distinct = (refl, (refl, (refl, tt)));
  unused = ((refl, omega arith), ((refl, omega arith), ((refl, omega arith), tt)));
}

-- The empty top-level table in frame 4.
abbrev one_table : Owner
one_table = update (λ f. none) 4 (some (place 4 0 0))

one_table-IsTables : IsTables one_table empty_memory (1 ∷ 2 ∷ 3 ∷ [])
one_table-IsTables = record {
  free = empty_memory-IsFree;
  forest = record { child = λ f r d k i at deep user here. ground (arith, here, present-zero) };
  unowned = (refl, (refl, (refl, tt)));
}

alloc_page-cons_example :
    ((alloc_page 1 empty_memory).0 ≡ some 1)
    × IsTaken empty_memory 1 1 (2 ∷ 3 ∷ []) (alloc_page 1 empty_memory).1
alloc_page-cons_example = alloc_page-cons 1 1 (2 ∷ 3 ∷ []) empty_memory-IsFree

free_page-IsFree_example : IsPut empty_memory 8 (1 ∷ 2 ∷ 3 ∷ []) 0 (free_page (some 8) empty_memory)
free_page-IsFree_example = free_page-IsFree 8 0 empty_memory-IsFree refl (omega arith) refl

user_address : UserAddress 4198400
unfolding level_index
user_address = omega arith

insert_page-IsInserted_example :
    Returns
      (IsInserted one_table empty_memory (1 ∷ 2 ∷ 3 ∷ []) 4 4198400 (bit_or (page2pa 8) 7))
      (insert_page 4 4198400 (some 8) 7 empty_memory)
insert_page-IsInserted_example =
    insert_page-IsInserted one_table empty_memory (1 ∷ 2 ∷ 3 ∷ []) 4 4198400 one_table-IsTables refl
      user_address (omega arith) 8 7

-- Tables in the frames 4 to 7 that lead from the address 0 to the page 8.
abbrev four_levels : ℕ → ℕ → ℕ
four_levels f i =
    if i == 0
    then (if f == 4
        then 5 * 4096 + 7
        else if f == 5
        then 6 * 4096 + 7
        else if f == 6
        then 7 * 4096 + 7
        else if f == 7
        then 8 * 4096 + 7
        else 0)
    else 0

abbrev mapped_memory : Mm
mapped_memory = record { phead = some 1; pages = some_pages; mem = four_levels; flushed = [] }

abbrev four_tables : Owner
four_tables f =
    if f == 4
    then some (place 4 0 0)
    else if f == 5
    then some (place 4 1 0)
    else if f == 6
    then some (place 4 2 0)
    else if f == 7
    then some (place 4 3 0)
    else none

four_tables-IsTables : IsTables four_tables mapped_memory (1 ∷ 2 ∷ 3 ∷ [])
four_tables-IsTables = record {
  free = record {
    chain = (refl, (refl, (refl, refl)));
    distinct = (refl, (refl, (refl, tt)));
    unused = ((refl, omega arith), ((refl, omega arith), ((refl, omega arith), tt)));
  };
  forest = record { child = λ f r d k i at deep user here. ground (arith, at, here, present-zero) };
  unowned = (refl, (refl, (refl, tt)));
}

null_address : UserAddress 0
unfolding level_index
null_address = omega arith

remove_page-IsRemoved_example :
    Returns
      (IsRemoved four_tables mapped_memory (1 ∷ 2 ∷ 3 ∷ []) 4 0 8 0)
      (remove_page 4 0 mapped_memory)
unfolding entry_from present level_index
remove_page-IsRemoved_example =
    remove_page-IsRemoved four_tables mapped_memory (1 ∷ 2 ∷ 3 ∷ []) 4 0 0 four_tables-IsTables refl
      null_address refl (omega arith) refl refl refl

-- The second byte is asked for after the first.
abbrev cmos_byte : List Event → ℕ → ℕ
cmos_byte [] port = 0
cmos_byte (e ∷ log) port = if length log == 0 then 0 else 0x3c

-- A CMOS that reports 0x3c00 KB, and an image of one megabyte.
abbrev cmos : Device
cmos = record { byte = cmos_byte; block = λ log port i. 0 }

cmos_size : (detect_memsize cmos []).0 ≡ 0x3c00
unfolding detect_memsize
cmos_size = refl

init_mem-IsLaidOut_example :
    IsLaidOut
      (λ i. i)
      (λ i. 7)
      (kbase + 0x100000)
      (4 * (detect_memsize cmos []).0)
      (init_mem cmos (kbase + 0x100000) (λ i. i) (λ i. 7) ([], empty_memory)).0
      (init_mem cmos (kbase + 0x100000) (λ i. i) (λ i. 7) ([], empty_memory)).2
init_mem-IsLaidOut_example =
    init_mem-IsLaidOut cmos (kbase + 0x100000) (λ i. i) (λ i. 7) [] empty_memory (omega arith)
      (omega arith) (omega (arith, cmos_size))
