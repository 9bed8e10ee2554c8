-- ===== src/Trap/Tests.antt =====
-- Page faults on a small memory.
use myos_git.Prelude.{
  ℕ, ◌+◌, ◌*◌, ◌<◌, ◌%◌, ◌^◌, ◌≡◌, refl, none, some, [], ◌∷◌, arith, ◌==◌, leb, if◌then◌else◌,
}
use myos_git.Prelude.Int.{pos}
use myos_git.Prelude.Result.{Returns}
use myos_git.Mm.State.{Mm, Page}
use myos_git.Mm.{level_index, present}
use myos_git.Mm.Tables.{Owner, place, UserAddress, present-zero, entry_from}
use myos_git.Mm.Walk.{IsTables}
use myos_git.Trap.{page_fault}
use myos_git.Trap.Gates.{Gate, Handler, init_trap}
use myos_git.Trap.Gates.Installed.{vector, AllSet, init_trap-AllSet}
use myos_git.Trap.Mapped.{IsMapped, page_fault-IsMapped, page_fault-IsMapped_copy}

-- Pages 1 to 4 are free; the others are counted twice.
abbrev four_free : ℕ → Page
four_free i =
    if i == 4
    then record { link = none; count = pos 0 }
    else if leb i 4
    then record { link = some (i + 1); count = pos 0 }
    else record { link = none; count = pos 2 }

-- Tables in the frames 5 to 8 that lead from the address 0 to the page 9.
abbrev shared_page : ℕ → ℕ → ℕ
shared_page f i =
    if i == 0
    then (if f == 5
        then 6 * 4096 + 7
        else if f == 6
        then 7 * 4096 + 7
        else if f == 7
        then 8 * 4096 + 7
        else if f == 8
        then 9 * 4096 + 5
        else 0)
    else 0

abbrev memory : Mm
memory = record { phead = some 1; pages = four_free; mem = shared_page; flushed = [] }

abbrev tables : Owner
tables f =
    if f == 5
    then some (place 5 0 0)
    else if f == 6
    then some (place 5 1 0)
    else if f == 7
    then some (place 5 2 0)
    else if f == 8
    then some (place 5 3 0)
    else none

memory-IsTables : IsTables tables memory (1 ∷ 2 ∷ 3 ∷ 4 ∷ [])
memory-IsTables = record {
  free = record {
    chain = (refl, (refl, (refl, (refl, refl))));
    distinct = (refl, (refl, (refl, (refl, tt))));
    unused = (
      (refl, omega arith),
      ((refl, omega arith), ((refl, omega arith), ((refl, omega arith), tt))),
    );
  };
  forest = record { child = λ f r d k i at deep user here. ground (arith, at, here, present-zero) };
  unowned = (refl, (refl, (refl, (refl, tt))));
}

second_page : UserAddress 4096
unfolding level_index
second_page = omega arith

first_page : UserAddress 0
unfolding level_index
first_page = omega arith

page_fault-IsMapped_example :
    Returns (IsMapped tables memory 5 4096 1 (λ j. 0)) (page_fault 5 6 4100 memory)
page_fault-IsMapped_example =
    page_fault-IsMapped tables memory 1 (2 ∷ 3 ∷ 4 ∷ []) 5 4096 memory-IsTables refl second_page
      (omega arith) 6 4100 refl refl (omega arith)

page_fault-IsMapped_copy_example :
    Returns
      (λ o t.
        IsMapped tables memory 5 0 1 (memory.mem 9) o t
        × (0 < 1 → ((t.pages 9).count ≡ pos 1) × ((j : ℕ) → t.mem 9 j ≡ memory.mem 9 j)))
      (page_fault 5 7 8 memory)
unfolding entry_from present level_index
page_fault-IsMapped_copy_example =
    page_fault-IsMapped_copy tables memory 1 (2 ∷ 3 ∷ 4 ∷ []) 5 0 1 memory-IsTables refl first_page
      (omega arith) 7 8 refl refl refl (omega arith) refl (omega arith) refl refl refl

-- An empty table.
abbrev no_gates : ℕ → Gate
no_gates n = record {
  offset0 = 0;
  selector = 0;
  reserve = 0;
  kind = 0;
  offset1 = 0;
  offset2 = 0;
  reserved_ign = 0;
}

-- Entry points of 16 bytes each.
abbrev entry_points : Handler → ℕ
entry_points h = (0xffff800000102000 + 16 * vector h) % 2 ^ 64

init_trap-AllSet_example : AllSet entry_points no_gates (init_trap entry_points no_gates)
init_trap-AllSet_example = init_trap-AllSet entry_points no_gates (λ h. omega arith)
