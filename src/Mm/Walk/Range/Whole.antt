-- ===== src/Mm/Walk/Range/Whole.antt =====
-- A whole range of new pages, page by page.
use myos_git.Prelude.{
  ℕ, zero, suc, ◌+◌, ◌*◌, ◌/◌, ◌%◌, ◌^◌, ◌≤◌, ◌<◌, ◌≡◌, refl, sym, ap, ◌∙◌, ◌≢◌, inl, inr, true,
  false, none, some, List, [], ◌∷◌, arith, ◌==◌, length, has, Bool-cases, bit_or, bit_and,
}
use myos_git.Mm.State.{Mm, Returns, returns, Returns-and_then, Returns-map}
use myos_git.Mm.Tables.{Owner, place, entry_at}
use myos_git.Mm.Walk.{IsTables}
use myos_git.Mm.{page2pa, page_size}
use myos_git.Mm.Walk.Range.{map_range, enter_new-IsRange, IsRange, low-UserAddress}

-- The pages of the first address and of the others.
abbrev pages_from : ℕ → (ℕ → ℕ) → ℕ → ℕ
pages_from p page zero = p
pages_from p page (suc k) = page k

later_address : (va k : ℕ) → va + page_size + k * page_size ≡ va + suc k * page_size
later_address va k = omega arith

apart_address :
    (va n k : ℕ)
    → va + suc n * page_size ≤ 2 ^ 47
    → k < n
    → va / 2 ^ 12 % 2 ^ 36 ≢ (va + page_size + k * page_size) / 2 ^ 12 % 2 ^ 36
apart_address va n k high below e = absurd (omega arith)

pub has-fewer :
    (xs left : List ℕ) (q : ℕ)
    → (has q xs ≡ false → has q left ≡ false)
    → has q left ≡ true
    → has q xs ≡ true
has-fewer xs left q fewer there = elim (Bool-cases (has q xs)) [
  | inl inside ↦ inside
  | inr out ↦ cc (fewer out, there)
]

-- A range after its first page.
module _ (owner : Owner) (s : Mm) (xs : List ℕ) (flags flag pgdir va n : ℕ) (t u : Mm)
    (root : owner pgdir ≡ some (place pgdir 0 0)) (high : va + suc n * page_size ≤ 2 ^ 47)
    (first : IsRange owner s xs pgdir va flags flag 1 t)
    (rest : IsRange first.owner' t first.left pgdir (va + page_size) flags flag n u) where
  first_kept : entry_at u.mem pgdir (va + 0 * page_size) ≡ entry_at t.mem pgdir (va + 0 * page_size)
  first_kept =
      rest.others pgdir (va + 0 * page_size) (first.extends pgdir _ root)
        (low-UserAddress _ (omega arith))
        (inr (λ k below e. apart_address va n k high below (first_address ∙ e)))
    where
      first_address : va / 2 ^ 12 % 2 ^ 36 ≡ (va + 0 * page_size) / 2 ^ 12 % 2 ^ 36
      first_address = omega arith

  all_mapped :
      (k : ℕ)
      → k < suc n
      → entry_at u.mem pgdir (va + k * page_size)
        ≡ bit_or (page2pa (pages_from (first.page 0) rest.page k)) flag
  all_mapped zero below = first_kept ∙ first.mapped 0 (omega arith)
  all_mapped (suc k) below =
      ap (λ a. entry_at u.mem pgdir a) (sym (later_address va k)) ∙ rest.mapped k (omega arith)

  all_taken :
      (k : ℕ)
      → k < suc n
      → (has (pages_from (first.page 0) rest.page k) xs ≡ true)
        × (has (pages_from (first.page 0) rest.page k) rest.left ≡ false)
  all_taken zero below =
      let (before, after) = first.taken 0 (omega arith) in (before, rest.fewer _ after)
  all_taken (suc k) below =
      let (before, after) = rest.taken k (omega arith) in
      (has-fewer xs first.left (rest.page k) (first.fewer (rest.page k)) before, after)

  all_once :
      (j k : ℕ)
      → j < k
      → k < suc n
      → pages_from (first.page 0) rest.page j ≢ pages_from (first.page 0) rest.page k
  all_once zero zero less below e = absurd (omega arith)
  all_once zero (suc k) less below e =
      let gone = (first.taken 0 (omega arith)).1 in
      let there = (rest.taken k (omega arith)).0 in cc (gone, there, ap (λ q. has q first.left) e)
  all_once (suc j) zero less below e = absurd (omega arith)
  all_once (suc j) (suc k) less below e = rest.once j k (omega arith) (omega arith) e

  all_data : (k : ℕ) → k < suc n → rest.owner' (pages_from (first.page 0) rest.page k) ≡ none
  all_data zero below =
      rest.same_owner _ (first.taken 0 (omega arith)).1 ∙ first.data_page 0 (omega arith)
  all_data (suc k) below = rest.data_page k (omega arith)

  all_zeroed :
      (bit_and flags 1 == 0) ≡ false
      → (k j : ℕ) → k < suc n
      → u.mem (pages_from (first.page 0) rest.page k) j ≡ 0
  all_zeroed clear zero j below =
      rest.frames _ j (first.taken 0 (omega arith)).1 (first.data_page 0 (omega arith))
      ∙ first.zeroed clear 0 j (omega arith)
  all_zeroed clear (suc k) j below = rest.zeroed clear k j (omega arith)

  add-IsRange : IsRange owner s xs pgdir va flags flag (suc n) u
  add-IsRange = record {
    owner' = rest.owner';
    left = rest.left;
    tables = rest.tables;
    extends = λ q a at. rest.extends q a (first.extends q a at);
    enough = omega (arith, first.enough, rest.enough);
    fewer = λ q out. rest.fewer q (first.fewer q out);
    page = pages_from (first.page 0) rest.page;
    mapped = all_mapped;
    taken = all_taken;
    once = all_once;
    data_page = all_data;
    zeroed = all_zeroed;
    same_owner = λ q out. rest.same_owner q (first.fewer q out) ∙ first.same_owner q out;
    frames = λ q j out unowned.
        rest.frames q j (first.fewer q out) (first.same_owner q out ∙ unowned)
        ∙ first.frames q j out unowned;
    others = λ pgdir' va' root' user' apart.
        rest.others pgdir' va' (first.extends pgdir' _ root') user' (elim apart [
          | inl tree ↦ inl tree
          | inr page ↦ inr (λ k below e.
              page (suc k) (omega arith)
                (e ∙ ap (λ (a : ℕ). a / 2 ^ 12 % 2 ^ 36) (later_address va k)))
        ])
        ∙ first.others pgdir' va' root' user'
            (elim apart [ inl tree ↦ inl tree | inr page ↦ inr (λ k below. page k (omega arith)) ]);
  }

-- With four free pages for each, every page of a range of user addresses gets a page of its own, for the
-- flags given, and the entries of all other pages and address spaces stay.
pub map_range-IsRange :
    (n flags flag pgdir va : ℕ) (owner : Owner) (s : Mm) (xs : List ℕ)
    → IsTables owner s xs
    → owner pgdir ≡ some (place pgdir 0 0)
    → va + n * page_size ≤ 2 ^ 47
    → 4 * n ≤ length xs
    → Returns
        (λ r t. IsRange owner s xs pgdir va flags flag n t)
        (map_range flags flag n pgdir va s)
unfolding map_range
map_range-IsRange zero flags flag pgdir va owner s xs w root high room = returns record {
  owner' = owner;
  left = xs;
  tables = w;
  extends = λ q a at. at;
  enough = omega arith;
  fewer = λ q out. out;
  page = λ k. 0;
  mapped = λ k below. absurd (omega arith);
  taken = λ k below. absurd (omega arith);
  once = λ j k less below. absurd (omega arith);
  data_page = λ k below. absurd (omega arith);
  zeroed = λ clear k j below. absurd (omega arith);
  same_owner = λ q out. refl;
  frames = λ q j out unowned. refl;
  others = λ pgdir' va' root' user' apart. refl;
}
map_range-IsRange (suc n) flags flag pgdir va owner s [] w root high room = absurd (omega arith)
map_range-IsRange (suc n) flags flag pgdir va owner s (p ∷ xs) w root high room =
    Returns-and_then (λ r t. map_range flags flag n pgdir (va + page_size) t)
      (enter_new-IsRange owner s p xs flags flag pgdir va w root (low-UserAddress va (omega arith))
        (omega arith))
      (λ r t first.
        Returns-map
          (map_range-IsRange n flags flag pgdir (va + page_size) first.owner' t first.left
            first.tables (first.extends pgdir _ root) (omega arith) (omega (arith, first.enough)))
          (λ r' u rest.
            add-IsRange owner s (p ∷ xs) flags flag pgdir va n t u root high first rest))
