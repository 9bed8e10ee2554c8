-- ===== src/Trap/Mapped.antt =====
-- What a page fault of a user leaves in the page tables.
use mathlib.Core.Path.{subst}
use myos_git.Prelude.{
  ℕ, zero, suc, ◌*◌, ◌/◌, ◌%◌, ◌^◌, ◌<◌, ◌≤◌, ◌≡◌, ◌≢◌, refl, sym, ap, ◌∙◌, ◌⊎◌, inl, inr, true,
  false, Option, none, some, List, ◌∷◌, arith, ◌==◌, bit_and, bit_or, length, has, update,
  Option-cases,
}
use myos_git.Prelude.Int.{pos}
use myos_git.Prelude.Result.{ok, and_then, Returns, returns, Returns-and_then}
use myos_git.Mm.State.{Mm}
use myos_git.Mm.{page2pa, frame_of, present, level_index, alloc_page, remove_page}
use myos_git.Mm.Frames.{IsFree, IsTaken, alloc_page-cons, freed}
use myos_git.Mm.Tables.{Owner, place, UserAddress, entry_at, present-zero}
use myos_git.Mm.Tables.Agree.{same_entry, same-IsForest}
use myos_git.Mm.Walk.{IsTables}
use myos_git.Mm.Walk.Insert.{insert_page-IsInserted}
use myos_git.Mm.Tables.Leaf.{table_from, entry_from-none, entry_from-some}
use myos_git.Mm.Walk.Insert.{slot_of}
use myos_git.Mm.Walk.Remove.{walk_page-eq-table_from, remove_page-IsRemoved, IsRemoved}
use myos_git.Proc.Life.{copy_frame, user_frame}
use myos_git.Trap.{Trapped, handled, insert_new, copy_page, page_fault}

-- The page p is mapped at the address for the user's reading and writing, with the given words, and no other page of
-- any address space is touched.
pub record IsMapped (owner : Owner) (s : Mm) (pgdir va p : ℕ) (content : ℕ → ℕ) (o : Trapped)
    (t : Mm) : Type 0 where
  pub back : o ≡ handled
  pub entry_set : entry_at t.mem pgdir va ≡ bit_or (page2pa p) 7
  pub content_set : (j : ℕ) → t.mem p j ≡ content j
  pub others :
      (pgdir' va' : ℕ)
      → owner pgdir' ≡ some (place pgdir' 0 0)
      → UserAddress va'
      → (pgdir' ≢ pgdir) ⊎ (va' / 2 ^ 12 % 2 ^ 36 ≢ va / 2 ^ 12 % 2 ^ 36)
      → entry_at t.mem pgdir' va' ≡ entry_at s.mem pgdir' va'

module _ (owner : Owner) (s : Mm) (p : ℕ) (xs : List ℕ) (pgdir va : ℕ)
    (w : IsTables owner s (p ∷ xs)) (root : owner pgdir ≡ some (place pgdir 0 0))
    (user : UserAddress va) (room : 3 ≤ length xs) where
  new-IsMapped :
      (t : Mm)
      → IsTaken s 1 p xs t
      → Returns (IsMapped owner s pgdir va p (λ j. 0)) (insert_new pgdir va (some p, t))
  unfolding insert_new
  new-IsMapped t taken =
      let kept : (q : ℕ) → q ≢ p → t.mem q ≡ s.mem q = λ q ne. (taken.others q ne).1 in
      let tables : IsTables owner t xs = record {
        free = taken.free;
        forest = same-IsForest owner s t p w.unowned.0 kept w.forest;
        unowned = w.unowned.1;
      } in
      Returns-and_then (λ r u. ok handled u)
        (insert_page-IsInserted owner t xs pgdir va tables root user room p 7)
        (λ r u h. returns (record {
          back = refl;
          entry_set = h.entry_set;
          content_set = λ j. h.frames p j w.free.distinct.0 w.unowned.0 ∙ taken.zeroed refl j;
          others = λ pgdir' va' root' user' apart.
              h.others pgdir' va' root' user' apart
              ∙ same_entry owner s t p w.unowned.0 kept pgdir' va' w.forest root' user';
        }))

  -- A user's access to a page that is not present, over well-formed tables with three more free pages:
  -- the first free page, cleared, becomes the page at the faulting address, for reading and writing, and
  -- the entries of all other pages and address spaces stay.
  pub page_fault-IsMapped :
      (err_code cr2 : ℕ)
      → (bit_and err_code 4 == 0) ≡ false
      → (bit_and err_code 1 == 0) ≡ true
      → va ≡ cr2 / 4096 * 4096
      → Returns (IsMapped owner s pgdir va p (λ j. 0)) (page_fault pgdir err_code cr2 s)
  unfolding page_fault
  page_fault-IsMapped err_code cr2 in_user absent e =
      rw (in_user, absent, sym e) (new_page (alloc_page 1 s) (alloc_page-cons 1 p xs w.free))
    where
      new_page :
          (r : Option ℕ × Mm)
          → (r.0 ≡ some p) × IsTaken s 1 p xs r.1
          → Returns (IsMapped owner s pgdir va p (λ j. 0)) (insert_new pgdir va r)
      new_page (o, t) (first, taken) =
          subst (λ x. Returns (IsMapped owner s pgdir va p (λ j. 0)) (insert_new pgdir va (x, t)))
            (sym first) (new-IsMapped t taken)

length-freed : (q n : ℕ) (xs : List ℕ) → length xs ≤ length (freed q n xs)
length-freed q zero xs = omega arith
length-freed q (suc n) xs = omega arith

has-freed : (p q n : ℕ) (xs : List ℕ) → p ≢ q → has p xs ≡ false → has p (freed q n xs) ≡ false
has-freed p q zero xs ne out = ground arith
has-freed p q (suc n) xs ne out = out

has-freed_used : (q n : ℕ) (xs : List ℕ) → 0 < n → has q xs ≡ false → has q (freed q n xs) ≡ false
has-freed_used q zero xs used out = absurd (omega arith)
has-freed_used q (suc n) xs used out = out

module _ (owner : Owner) (s : Mm) (p : ℕ) (xs : List ℕ) (pgdir va n : ℕ)
    (w : IsTables owner s (p ∷ xs)) (root : owner pgdir ≡ some (place pgdir 0 0))
    (user : UserAddress va) (room : 3 ≤ length xs) where
  abbrev shared : ℕ
  shared = frame_of (entry_at s.mem pgdir va)

  -- The new page has the words of the shared one, which keeps them for the others that have it, and has one
  -- reference less.
  abbrev pub IsReplaced : Trapped → Mm → Type 0
  IsReplaced o t =
      IsMapped owner s pgdir va p (s.mem shared) o t
      × (0 < n → ((t.pages shared).count ≡ pos n) × ((j : ℕ) → t.mem shared j ≡ s.mem shared j))

  -- The removal of the shared page and the insertion of its copy, from the state `u` with the copy.
  replaced :
      (u : Mm)
      → IsFree u xs
      → ((q : ℕ) → q ≢ p → u.mem q ≡ s.mem q)
      → ((j : ℕ) → u.mem p j ≡ s.mem shared j)
      → u.pages shared ≡ s.pages shared
      → present (entry_at s.mem pgdir va) ≡ true
      → shared < 2 ^ 52
      → shared ≢ p
      → has shared xs ≡ false
      → owner shared ≡ none
      → (s.pages shared).count ≡ pos (suc n)
      → Returns IsReplaced
          (and_then (remove_page pgdir va u) (λ r m3. insert_new pgdir va (some p, m3)))
  unfolding insert_new
  replaced u free kept copy page here small apart out data_page counted =
      let tables : IsTables owner u xs = record {
        free = free;
        forest = same-IsForest owner s u p w.unowned.0 kept w.forest;
        unowned = w.unowned.1;
      } in
      let same : entry_at u.mem pgdir va ≡ entry_at s.mem pgdir va =
        same_entry owner s u p w.unowned.0 kept pgdir va w.forest root user in
      let left : Returns (IsRemoved owner u xs pgdir va shared n) (remove_page pgdir va u) =
        subst (λ e. Returns (IsRemoved owner u xs pgdir va (frame_of e) n) (remove_page pgdir va u))
          same
          (remove_page-IsRemoved owner u xs pgdir va n tables root user (ap present same ∙ here)
            (subst (λ e. frame_of e < 2 ^ 52) (sym same) small)
            (ap (λ e. has (frame_of e) xs) same ∙ out)
            (ap (λ e. owner (frame_of e)) same ∙ data_page)
            (ap (λ e. (u.pages (frame_of e)).count) same ∙ ap (λ q. q.count) page ∙ counted)) in
      let unlisted : has p (freed shared n xs) ≡ false =
        has-freed p shared n xs (λ e. apart (sym e)) w.free.distinct.0 in
      Returns-and_then (λ r m3. insert_new pgdir va (some p, m3)) left
        (λ r v gone.
          Returns-and_then (λ r2 m4. ok handled m4)
            (insert_page-IsInserted owner v (freed shared n xs) pgdir va gone.tables root user
              (omega (arith, length-freed shared n xs)) p 7)
            (λ r2 x h. returns (
              record {
                back = refl;
                entry_set = h.entry_set;
                content_set = λ j.
                    h.frames p j unlisted w.unowned.0
                    ∙ ap (λ f. f j) (gone.frames p w.unowned.0)
                    ∙ copy j;
                others = λ pgdir' va' root' user' other.
                    h.others pgdir' va' root' user' other
                    ∙ gone.others pgdir' va' root' user' other
                    ∙ same_entry owner s u p w.unowned.0 kept pgdir' va' w.forest root' user';
              },
              λ used. (
                ap (λ q. q.count) (h.pages shared (has-freed_used shared n xs used out))
                    ∙ gone.counted,
                λ j.
                    h.frames shared j (has-freed_used shared n xs used out) data_page
                    ∙ ap (λ f. f j) (gone.frames shared data_page)
                    ∙ ap (λ f. f j) (kept shared apart),
              ),
            )))

  -- The copy of the shared page to the first free page.
  copied :
      (g : ℕ) (r : Option ℕ × Mm)
      → s.mem g (level_index 0 va) ≡ entry_at s.mem pgdir va
      → (r.0 ≡ some p) × IsTaken s 1 p xs r.1
      → present (entry_at s.mem pgdir va) ≡ true
      → shared < 2 ^ 52
      → has shared (p ∷ xs) ≡ false
      → owner shared ≡ none
      → (s.pages shared).count ≡ pos (suc n)
      → Returns IsReplaced (
          and_then (copy_frame (user_frame (some (slot_of va g)) s) r) (λ pp m2.
            and_then (remove_page pgdir va m2) (λ r2 m3. insert_new pgdir va (some pp, m3))))
  unfolding copy_frame user_frame
  copied g (o, t) at (first, taken) here small out data_page counted =
      let apart : shared ≢ p = λ e. ground (arith, out, e) in
      let other : has shared xs ≡ false = ground (arith, out) in
      let u = record t { mem = update t.mem p (t.mem shared) } in
      let free : IsFree u xs = record {
        chain = taken.free.chain;
        distinct = taken.free.distinct;
        unused = taken.free.unused;
      } in
      let kept : (q : ℕ) → q ≢ p → u.mem q ≡ s.mem q =
        λ q ne. let e : (p == q) ≡ false = ground arith in rw e (taken.others q ne).1 in
      let copy : (j : ℕ) → u.mem p j ≡ s.mem shared j = λ j.
        let self : (p == p) ≡ true = ground arith in
        rw self (ap (λ f. f j) (taken.others shared apart).1) in
      rw (at, here, first)
        (replaced u free kept copy (taken.others shared apart).0 here small apart other data_page
          counted)

  -- A user's write to a page that is mapped but shared: its frame is below 2 ^ 52, not free, counted
  -- with n + 1 references, and holds no table. With three more free pages over well-formed tables, the
  -- first free page, with the words of the shared page, becomes the page at the address, for reading and
  -- writing, and the entries of all other pages and address spaces stay, the other users' of the shared
  -- page among them. If it has other users, n references are left, and its words stay.
  pub page_fault-IsMapped_copy :
      (err_code cr2 : ℕ)
      → (bit_and err_code 4 == 0) ≡ false
      → (bit_and err_code 1 == 0) ≡ false
      → (bit_and err_code 2 == 0) ≡ false
      → va ≡ cr2 / 4096 * 4096
      → present (entry_at s.mem pgdir va) ≡ true
      → shared < 2 ^ 52
      → has shared (p ∷ xs) ≡ false
      → owner shared ≡ none
      → (s.pages shared).count ≡ pos (suc n)
      → Returns IsReplaced (page_fault pgdir err_code cr2 s)
  unfolding page_fault copy_page
  page_fault-IsMapped_copy err_code cr2 in_user protected write e here small out data_page counted =
      rw (in_user, protected, write, sym e, walk_page-eq-table_from pgdir va s)
        (elim (Option-cases (table_from 3 s.mem pgdir va)) [
          | inl missing ↦
              let absent = ap present (entry_from-none 3 s.mem pgdir va missing) in
              cc (absent, here, present-zero)
          | inr (g, found) ↦ rw found (
              copied g (alloc_page 1 s) (sym (entry_from-some 3 s.mem pgdir va g found))
                (alloc_page-cons 1 p xs w.free) here small out data_page counted)
        ])
