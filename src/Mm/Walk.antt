-- ===== src/Mm/Walk.antt =====
-- The walk of `walk_page` with `create` set, level by level.
pub mod Descend
pub mod Enter
pub mod Insert
pub mod Range
pub mod Root
pub mod Sample
pub mod Remove
use myos_git.Prelude.{
  ℕ, zero, suc, ◌+◌, ◌*◌, ◌^◌, ◌<◌, ◌≤◌, ◌≡◌, refl, ap, ◌∙◌, ◌≢◌, Bool, true, false, Option, none,
  some, List, [], ◌∷◌, arith, ◌==◌, if◌then◌else◌, update, has, All, length, Bool-cases,
}
use myos_git.Mm.State.{
  Mm, Run, ok, fault, and_then, ◌>>=◌, set_word, Returns, returns, Returns-and_then,
}
use myos_git.Mm.Frames.{IsFree, IsTaken, alloc_page-eq-take, alloc_page-nil, take_page-IsTaken}
use myos_git.Mm.Tables.{
  Owner, Place, place, IsForest, entry_from, table_entry, UserAddress, user_level, grown,
  grown_owner, grown-IsForest, grown-entry_from, present-entry, frame_of-entry, present-zero,
}
use myos_git.Mm.Tables.Agree.{agree-IsForest, agree-entry_from}
use myos_git.Mm.{
  take_page, alloc_page, alloc_from, link_table, new_table, frame_of, present, level_index,
}

-- The free pages `xs`, and page tables in frames that are not free.
pub record IsTables (owner : Owner) (s : Mm) (xs : List ℕ) : Type 0 where
  pub free : IsFree s xs
  pub forest : IsForest owner s.mem
  pub unowned : All (λ p. owner p ≡ none) xs

abbrev pub Extends : Owner → Owner → Type 0
Extends owner owner' = (q : ℕ) (a : Place) → owner q ≡ some a → owner' q ≡ some a

-- What making tables leaves alone, from `s` to `t`: words of tables that are present, the entries of
-- all addresses, the pages that were not free and the frames of those that hold no table, and the record of flushed addresses.
pub record Keeps (owner : Owner) (s t : Mm) (xs : List ℕ) : Type 0 where
  pub words :
      (q j : ℕ) (a : Place) → owner q ≡ some a → present (s.mem q j) ≡ true → t.mem q j ≡ s.mem q j
  pub entries :
      (n f va r d k : ℕ)
      → owner f ≡ some (place r d k)
      → d + n ≡ 3
      → (d ≡ 0 → UserAddress va)
      → entry_from n t.mem f va ≡ entry_from n s.mem f va
  pub pages : (q : ℕ) → has q xs ≡ false → t.pages q ≡ s.pages q
  pub frames : (q j : ℕ) → has q xs ≡ false → owner q ≡ none → t.mem q j ≡ s.mem q j
  pub flushed : t.flushed ≡ s.flushed

-- The state after `new_table`.
abbrev pub made : ℕ → ℕ → ℕ → Mm → Mm
made f i p s = set_word f i (table_entry p) (take_page 1 p s)

module _ {s : Mm} {p : ℕ} {xs : List ℕ} where
  pub new_table-eq-made : IsFree s (p ∷ xs) → (f i : ℕ) → new_table f i s ≡ ok p (made f i p s)
  unfolding new_table
  new_table-eq-made free f i = ap (link_table f i) (alloc_page-eq-take 1 p xs free)

pub new_table-nil : {s : Mm} → IsFree s [] → (f i : ℕ) → new_table f i s ≡ fault
unfolding new_table
new_table-nil free f i = ap (link_table f i) (alloc_page-nil 1 free)

pub unowned-update :
    (owner : Owner) (p : ℕ) (a : Place) (xs : List ℕ)
    → has p xs ≡ false
    → All (λ q. owner q ≡ none) xs
    → All (λ q. update owner p (some a) q ≡ none) xs
unowned-update owner p a [] out u = tt
unowned-update owner p a (x ∷ xs) out u = ground (arith, unowned-update owner p a xs)

-- `new_table` at an entry that is absent, with `p` the first free page.
module _ (owner : Owner) (s : Mm) (f r d k i p : ℕ) (xs : List ℕ) (w : IsTables owner s (p ∷ xs))
    (place_f : owner f ≡ some (place r d k)) (shallow : d < 3)
    (absent : present (s.mem f i) ≡ false) where
  abbrev taken : Mm
  taken = take_page 1 p s

  is_taken : IsTaken s 1 p xs taken
  is_taken = take_page-IsTaken 1 p xs w.free

  taken_same : (q : ℕ) (a : Place) → owner q ≡ some a → taken.mem q ≡ s.mem q
  taken_same q a at = (is_taken.others q (λ e. ground (arith, e, w.unowned))).1

  taken-IsForest : IsForest owner taken.mem
  taken-IsForest = agree-IsForest owner s.mem taken.mem w.forest taken_same

  taken_absent : present (taken.mem f i) ≡ false
  taken_absent = rw (taken_same f _ place_f) absent

  taken_clear : (j : ℕ) → taken.mem p j ≡ 0
  taken_clear = is_taken.zeroed refl

  small : p < 2 ^ 52
  small = w.free.unused.0.1

  abbrev pub made_owner : Owner
  made_owner = update owner p (some (place r (suc d) (k * 512 + i)))

  pub made-IsTables : IsTables made_owner (made f i p s) xs
  made-IsTables = record {
    free = record {
      chain = is_taken.free.chain;
      distinct = is_taken.free.distinct;
      unused = is_taken.free.unused;
    };
    forest =
        grown-IsForest owner taken.mem f r d k i p taken-IsForest place_f w.unowned.0 taken_clear
          taken_absent small;
    unowned = unowned-update owner p _ xs w.free.distinct.0 w.unowned.1;
  }

  pub made-Keeps : Keeps owner s (made f i p s) (p ∷ xs)
  made-Keeps = record {
    words = λ q j a at here.
        let e : taken.mem q j ≡ s.mem q j = λ m. taken_same q a at m j in ground (arith, e, absent);
    entries = λ n g va r' d' k' at deep user.
        grown-entry_from owner taken.mem f r d k i p taken-IsForest place_f w.unowned.0 taken_clear
          taken_absent small n g va r' d' k' at deep shallow user
        ∙ agree-entry_from owner s.mem taken.mem w.forest taken_same n g va r' d' k' at deep user;
    pages = λ q out. (is_taken.others q (λ e. ground (arith, e))).0;
    frames = λ q j out unowned.
        let e : taken.mem q j ≡ s.mem q j =
          λ m. (is_taken.others q (λ e. ground (arith, e))).1 m j in
        ground (arith, e, place_f);
    flushed = unfold take_page in refl;
  }

  pub made_word : (made f i p s).mem f i ≡ table_entry p
  made_word = ground arith

  pub made-clear : (j : ℕ) → (made f i p s).mem p j ≡ 0
  made-clear j = ground (arith, taken_clear j, w.unowned, place_f)
