-- ===== src/Trap.antt =====
-- The page fault in `do_trap` of kernel/amd64/trap.c.
pub mod Mapped
pub mod Gates
mod Tests
use myos_git.Prelude.{ℕ, ◌+◌, ◌*◌, ◌/◌, ◌%◌, Option, none, some, ◌==◌, if◌then◌else◌, bit_and}
use myos_git.Prelude.Int.{ℤ}
use myos_git.Prelude.Result.{Res, ok, fault, and_then}
use myos_git.Mm.State.{Mm}
use myos_git.Mm.{Slot, alloc_page, walk_page, insert_page, remove_page, table_flags, page_size}
use myos_git.Proc.Life.{user_frame, copy_frame}

-- `PFEC_U`, `PFEC_W` and `PFEC_P`.
abbrev pub pfec_u : ℕ
pfec_u = 4

abbrev pub pfec_w : ℕ
pfec_w = 2

abbrev pub pfec_p : ℕ
pfec_p = 1

-- Whether the handler comes back; a fault in the kernel ends in the `hlt` of `panic`.
pub data Trapped : Type 0 where
  handled : Trapped
  halted : Trapped

-- A new page at the address. What `insert_page` returns is not looked at.
insert_new : (pgdir va : ℕ) → Option ℕ × Mm → Res Mm Trapped
insert_new pgdir va (pp, m) = and_then (insert_page pgdir va pp table_flags m) (λ r t. ok handled t)

-- The copy of a page that is shared for writing.
copy_page : (pgdir va : ℕ) → Mm → Res Mm Trapped
unfolding insert_new
copy_page pgdir va m = and_then (walk_page pgdir va 0 m) (λ slot m1.
    and_then (copy_frame (user_frame slot m1) (alloc_page 1 m1))
      (λ pp m2. and_then (remove_page pgdir va m2) (λ r m3. insert_new pgdir va (some pp, m3))))

-- The case 14, with the tables of the current process.
pub page_fault : (pgdir err_code cr2 : ℕ) → Mm → Res Mm Trapped
unfolding insert_new copy_page
page_fault pgdir err_code cr2 m =
    let va = cr2 / page_size * page_size in
    if bit_and err_code pfec_u == 0
    then ok halted m
    else if bit_and err_code pfec_p == 0
    then insert_new pgdir va (alloc_page 1 m)
    else if bit_and err_code pfec_w == 0
    then ok handled m
    else copy_page pgdir va m
