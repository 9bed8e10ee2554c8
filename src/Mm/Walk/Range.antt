-- ===== src/Mm/Walk/Range.antt =====
-- A new page at each page address of a range, as `memmap` of kernel/proc.c and `sys_alloc_vm_mem` of
-- kernel/amd64/vmx.c map them: the loop that both run, and what it leaves in the tables.
pub mod Whole
use mathlib.Core.Path.{subst}
use myos_git.Prelude.{
  ℕ, zero, suc, ◌+◌, ◌*◌, ◌/◌, ◌%◌, ◌^◌, ◌≤◌, ◌<◌, ◌≡◌, refl, sym, ap, ◌∙◌, ◌≢◌, ◌⊎◌, inl, inr,
  true, false, Option, none, some, List, [], ◌∷◌, arith, ◌==◌, ==_iff, length, has, Bool-cases,
  bit_or, bit_and, if◌then◌else◌,
}
use myos_git.Prelude.Bits.{bit_and_mask}
use myos_git.Prelude.Int.{ℤ, pos}
use myos_git.Mm.State.{Mm, Run, ok, and_then, Returns, returns, Returns-and_then, Returns-map}
use myos_git.Mm.Frames.{IsFree, IsTaken, alloc_page-cons}
use myos_git.Mm.Tables.{Owner, place, entry_at, UserAddress}
use myos_git.Mm.Tables.Agree.{same_entry, same-IsForest}
use myos_git.Mm.Walk.{IsTables, Extends}
use myos_git.Mm.Walk.Insert.{IsInserted, insert_page-IsInserted}
use myos_git.Mm.{page2pa, level_index, alloc_page, insert_page, page_size}

abbrev pub enter_new : (pgdir va flag : ℕ) → Option ℕ × Mm → Run ℤ
enter_new pgdir va flag (pp, s) = insert_page pgdir va pp flag s

unfoldable pub map_range : (flags flag n pgdir va : ℕ) → Mm → Run ℤ
map_range flags flag zero pgdir va s = ok (pos 0) s
map_range flags flag (suc n) pgdir va s =
    and_then (enter_new pgdir va flag (alloc_page flags s))
      (λ r t. map_range flags flag n pgdir (va + page_size) t)

-- From `s`, in which `xs` were free, each of the n pages from `va` on got a page of its own out of `xs`, and
-- the entries of all other pages of all address spaces stay.
pub record IsRange (owner : Owner) (s : Mm) (xs : List ℕ) (pgdir va flags flag n : ℕ) (t : Mm)
    : Type 0 where
  pub owner' : Owner
  pub left : List ℕ
  pub tables : IsTables owner' t left
  pub extends : Extends owner owner'
  pub enough : length xs ≤ length left + 4 * n
  pub fewer : (q : ℕ) → has q xs ≡ false → has q left ≡ false
  pub page : ℕ → ℕ
  pub mapped :
      (k : ℕ) → k < n → entry_at t.mem pgdir (va + k * page_size) ≡ bit_or (page2pa (page k)) flag
  pub taken : (k : ℕ) → k < n → (has (page k) xs ≡ true) × (has (page k) left ≡ false)
  pub once : (j k : ℕ) → j < k → k < n → page j ≢ page k
  pub data_page : (k : ℕ) → k < n → owner' (page k) ≡ none
  pub zeroed : (bit_and flags 1 == 0) ≡ false → (k j : ℕ) → k < n → t.mem (page k) j ≡ 0
  pub same_owner : (q : ℕ) → has q xs ≡ false → owner' q ≡ owner q
  pub frames : (q j : ℕ) → has q xs ≡ false → owner q ≡ none → t.mem q j ≡ s.mem q j
  pub others :
      (pgdir' va' : ℕ)
      → owner pgdir' ≡ some (place pgdir' 0 0)
      → UserAddress va'
      → (pgdir' ≢ pgdir)
        ⊎ ((k : ℕ) → k < n → va' / 2 ^ 12 % 2 ^ 36 ≢ (va + k * page_size) / 2 ^ 12 % 2 ^ 36)
      → entry_at t.mem pgdir' va' ≡ entry_at s.mem pgdir' va'

-- The addresses below 2 ^ 47 are those of users.
pub low-UserAddress : (va : ℕ) → va < 2 ^ 47 → UserAddress va
unfolding level_index
low-UserAddress va h = omega (arith, bit_and_mask 9 (va / 2 ^ 39))

module _ (owner : Owner) (s : Mm) (p : ℕ) (xs : List ℕ) (flags flag pgdir va : ℕ)
    (w : IsTables owner s (p ∷ xs)) (root : owner pgdir ≡ some (place pgdir 0 0))
    (user : UserAddress va) (room : 3 ≤ length xs) where
  -- One new page.
  enter_taken :
      (t : Mm)
      → IsTaken s flags p xs t
      → Returns
          (λ r u. IsRange owner s (p ∷ xs) pgdir va flags flag 1 u)
          (insert_page pgdir va (some p) flag t)
  enter_taken t taken =
      let kept : (q : ℕ) → q ≢ p → t.mem q ≡ s.mem q = λ q ne. (taken.others q ne).1 in
      let tables : IsTables owner t xs = record {
        free = taken.free;
        forest = same-IsForest owner s t p w.unowned.0 kept w.forest;
        unowned = w.unowned.1;
      } in
      Returns-map (insert_page-IsInserted owner t xs pgdir va tables root user room p flag)
        (λ r u h. record {
          owner' = h.owner';
          left = h.left;
          tables = h.tables;
          extends = h.extends;
          enough = omega (arith, h.enough);
          fewer = λ q out. h.fewer q (ground arith);
          page = λ k. p;
          mapped = λ k below. first_page u h.entry_set k below;
          taken = λ k below. (ground arith, h.fewer p w.free.distinct.0);
          once = λ j k less below. absurd (omega arith);
          data_page = λ k below. h.same_owner p w.free.distinct.0 ∙ w.unowned.0;
          zeroed =
              λ clear k j below. h.frames p j w.free.distinct.0 w.unowned.0 ∙ taken.zeroed clear j;
          same_owner = λ q out. h.same_owner q (ground arith);
          frames = λ q j out unowned.
              h.frames q j (ground arith) unowned ∙ (λ i. kept q (λ e. ground (arith, e, out)) i j);
          others = λ pgdir' va' root' user' apart.
              h.others pgdir' va' root' user' (elim apart [
                | inl tree ↦ inl tree
                | inr page ↦ inr (λ e. page 0 (omega arith) (e ∙ first_address))
              ])
              ∙ same_entry owner s t p w.unowned.0 kept pgdir' va' w.forest root' user';
        })
    where
      first_address : va / 2 ^ 12 % 2 ^ 36 ≡ (va + 0 * page_size) / 2 ^ 12 % 2 ^ 36
      first_address = omega arith

      first_page :
          (u : Mm)
          → entry_at u.mem pgdir va ≡ bit_or (page2pa p) flag
          → (k : ℕ) → k < 1
          → entry_at u.mem pgdir (va + k * page_size) ≡ bit_or (page2pa p) flag
      first_page u e k below =
          let here : va + k * page_size ≡ va = omega arith in
          ap (λ a. entry_at u.mem pgdir a) here ∙ e

  pub enter_new-IsRange :
      Returns
        (λ r u. IsRange owner s (p ∷ xs) pgdir va flags flag 1 u)
        (enter_new pgdir va flag (alloc_page flags s))
  enter_new-IsRange = new_page (alloc_page flags s) (alloc_page-cons flags p xs w.free)
    where
      new_page :
          (r : Option ℕ × Mm)
          → (r.0 ≡ some p) × IsTaken s flags p xs r.1
          → Returns
              (λ z u. IsRange owner s (p ∷ xs) pgdir va flags flag 1 u)
              (enter_new pgdir va flag r)
      new_page (o, t) (first, taken) =
          subst
            (λ x.
              Returns (λ z u. IsRange owner s (p ∷ xs) pgdir va flags flag 1 u)
                (enter_new pgdir va flag (x, t)))
            (sym first) (enter_taken t taken)
