-- ===== src/Mm/Walk/Enter.antt =====
-- The entry of an address written in the table that a walk has led to.
use myos_git.Prelude.{
  ℕ, ◌+◌, ◌*◌, ◌/◌, ◌%◌, ◌^◌, ◌≤◌, ◌≡◌, refl, ◌∙◌, ◌≢◌, ◌⊎◌, inl, inr, false, none, some, List,
  arith, ◌==◌, ==_iff, length, has, Bool-cases,
}
use myos_git.Prelude.Bits.{bit_and_mask}
use myos_git.Mm.State.{Mm, set_word}
use myos_git.Mm.Tables.{Owner, place, IsForest, entry_at, UserAddress}
use myos_git.Mm.Tables.Leaf.{
  leaf_path, written-IsForest, written-entry_from_ne, written-entry_from, written-table_from,
  kept-table_from, table_from,
}
use myos_git.Mm.Walk.{IsTables, Extends}
use myos_git.Mm.Walk.Descend.{Descended}
use myos_git.Mm.{level_index}

-- The page number of a 48-bit address is its last-level table's path and its index in the table.
leaf_path-index : (va : ℕ) → leaf_path 3 0 va * 512 + level_index 0 va ≡ va / 2 ^ 12 % 2 ^ 36
unfolding level_index
leaf_path-index va = omega (
  arith,
  bit_and_mask 9 (va / 2 ^ 12),
  bit_and_mask 9 (va / 2 ^ 21),
  bit_and_mask 9 (va / 2 ^ 30),
  bit_and_mask 9 (va / 2 ^ 39),
)

pub other_page :
    (va va' : ℕ)
    → va' / 2 ^ 12 % 2 ^ 36 ≢ va / 2 ^ 12 % 2 ^ 36
    → (leaf_path 3 0 va' ≢ leaf_path 3 0 va) ⊎ (level_index 0 va' ≢ level_index 0 va)
other_page va va' ne = elim (Bool-cases (leaf_path 3 0 va' == leaf_path 3 0 va)) [
  | inl same ↦
      inr (λ e. ne (omega (arith, leaf_path-index va, leaf_path-index va', (==_iff _ _).0 same)))
  | inr other ↦ inl (λ e. cc (other, (==_iff (leaf_path 3 0 va') (leaf_path 3 0 va)).1 e))
]

-- From `s`, in which `xs` were free, to `t` the address got an entry, and tables on the way to it: the
-- entries of all other pages stay, and the pages that were not free; of these, the frames that hold no table, and the ways
-- to the last-level tables that there were.
pub record IsEntered (owner : Owner) (s : Mm) (xs : List ℕ) (pgdir va entry : ℕ) (t : Mm)
    : Type 0 where
  pub owner' : Owner
  pub left : List ℕ
  pub tables : IsTables owner' t left
  pub extends : Extends owner owner'
  pub enough : length xs ≤ length left + 3
  pub fewer : (q : ℕ) → has q xs ≡ false → has q left ≡ false
  pub pages : (q : ℕ) → has q xs ≡ false → t.pages q ≡ s.pages q
  pub same_owner : (q : ℕ) → has q xs ≡ false → owner' q ≡ owner q
  pub frames : (q j : ℕ) → has q xs ≡ false → owner q ≡ none → t.mem q j ≡ s.mem q j
  pub entry_set : entry_at t.mem pgdir va ≡ entry
  pub others :
      (pgdir' va' : ℕ)
      → owner pgdir' ≡ some (place pgdir' 0 0)
      → UserAddress va'
      → (pgdir' ≢ pgdir) ⊎ (va' / 2 ^ 12 % 2 ^ 36 ≢ va / 2 ^ 12 % 2 ^ 36)
      → entry_at t.mem pgdir' va' ≡ entry_at s.mem pgdir' va'
  pub paths :
      (pgdir' va' g : ℕ)
      → owner pgdir' ≡ some (place pgdir' 0 0)
      → UserAddress va'
      → table_from 3 s.mem pgdir' va' ≡ some g
      → table_from 3 t.mem pgdir' va' ≡ some g
  pub flushed : t.flushed ≡ s.flushed

pub set_word-IsEntered :
    (owner : Owner) (s : Mm) (xs : List ℕ) (pgdir va entry g : ℕ) (t : Mm)
    → owner pgdir ≡ some (place pgdir 0 0)
    → UserAddress va
    → IsForest owner s.mem
    → Descended owner s xs 3 pgdir va pgdir 0 g t
    → IsEntered owner s xs pgdir va entry (set_word g (level_index 0 va) entry t)
set_word-IsEntered owner s xs pgdir va entry g t root user old de =
    let owner' = de.grows.owner' in
    let forest = de.grows.tables.forest in
    let up = de.grows.extends in
    record {
      owner' = owner';
      left = de.grows.left;
      tables = record {
        free = record {
          chain = de.grows.tables.free.chain;
          distinct = de.grows.tables.free.distinct;
          unused = de.grows.tables.free.unused;
        };
        forest =
            written-IsForest owner' t.mem g pgdir (leaf_path 3 0 va) (level_index 0 va) entry forest
              de.at;
        unowned = de.grows.tables.unowned;
      };
      extends = up;
      enough = de.grows.enough;
      fewer = de.grows.fewer;
      pages = de.grows.keeps.pages;
      same_owner = de.grows.same_owner;
      frames = λ q j out unowned.
          let data_page : owner' q ≡ none = de.grows.same_owner q out ∙ unowned in
          let kept = de.grows.keeps.frames q j out unowned in
          ground (arith, kept, data_page, de.at);
      entry_set =
          written-entry_from owner' t.mem g pgdir (leaf_path 3 0 va) (level_index 0 va) entry forest
            de.at 3 pgdir va pgdir 0 0 (up pgdir _ root) refl (λ _. user) de.found refl;
      others = λ pgdir' va' root' user' apart.
          written-entry_from_ne owner' t.mem g pgdir (leaf_path 3 0 va) (level_index 0 va) entry
            forest de.at 3 pgdir' va' pgdir' 0 0 (up pgdir' _ root') refl (λ _. user')
            (elim apart [ inl tree ↦ inl tree | inr page ↦ inr (other_page va va' page) ])
          ∙ de.grows.keeps.entries 3 pgdir' va' pgdir' 0 0 root' refl (λ _. user');
      paths = λ pgdir' va' g' root' user' found.
          written-table_from owner' t.mem g pgdir (leaf_path 3 0 va) (level_index 0 va) entry forest
            de.at 3 pgdir' va' pgdir' 0 0 (up pgdir' _ root') refl (λ _. user')
          ∙ kept-table_from 3 owner s.mem t.mem pgdir' va' pgdir' 0 0 g' old de.grows.keeps.words
              root' refl (λ _. user') found;
      flushed = de.grows.keeps.flushed;
    }
