-- ===== src/Mm/Tables/Leaf.antt =====
-- A write into a last-level table changes the entry of one address.
use myos_git.Prelude.{
  ℕ, zero, suc, ◌+◌, ◌*◌, ◌≡◌, refl, ◌≢◌, ◌⊎◌, inl, inr, Option, none, some, arith, if◌then◌else◌,
  update, Bool-cases, true,
}
use myos_git.Mm.{frame_of, present, level_index}
use myos_git.Mm.Tables.{Owner, Place, place, IsForest, entry_from, UserAddress, user_level}

-- The last-level table on the way to the address, if every level is there.
unfoldable pub table_from : ℕ → (ℕ → ℕ → ℕ) → ℕ → ℕ → Option ℕ
table_from zero mem f va = some f
table_from (suc n) mem f va =
    let rest = table_from n mem (frame_of (mem f (level_index (suc n) va))) va in
    if present (mem f (level_index (suc n) va)) then rest else none

-- The path of that table, from a table whose own path is `k`.
abbrev pub leaf_path : ℕ → ℕ → ℕ → ℕ
leaf_path zero k va = k
leaf_path (suc n) k va = leaf_path n (k * 512 + level_index (suc n) va) va

pub entry_from-none :
    (n : ℕ) (mem : ℕ → ℕ → ℕ) (f va : ℕ) → table_from n mem f va ≡ none → entry_from n mem f va ≡ 0
unfolding table_from entry_from
entry_from-none zero mem f va h = cc
entry_from-none (suc n) mem f va h =
    ground (arith, entry_from-none n mem (frame_of (mem f (level_index (suc n) va))) va)

pub entry_from-some :
    (n : ℕ) (mem : ℕ → ℕ → ℕ) (f va g : ℕ)
    → table_from n mem f va ≡ some g
    → entry_from n mem f va ≡ mem g (level_index 0 va)
unfolding table_from entry_from
entry_from-some zero mem f va g h = ground arith
entry_from-some (suc n) mem f va g h =
    ground (arith, entry_from-some n mem (frame_of (mem f (level_index (suc n) va))) va g)

pub table_from-place :
    (n : ℕ) (owner : Owner) (mem : ℕ → ℕ → ℕ) (f va r d k g : ℕ)
    → IsForest owner mem
    → owner f ≡ some (place r d k)
    → d + n ≡ 3
    → (d ≡ 0 → UserAddress va)
    → table_from n mem f va ≡ some g
    → owner g ≡ some (place r 3 (leaf_path n k va))
unfolding table_from
table_from-place zero owner mem f va r d k g forest at deep user h = ground arith
table_from-place (suc n) owner mem f va r d k g forest at deep user h =
    elim (Bool-cases (present (mem f (level_index (suc n) va)))) [
      | inl here ↦
          table_from-place n owner mem (frame_of (mem f (level_index (suc n) va))) va r (suc d)
            (k * 512 + level_index (suc n) va) g forest
            (forest.child f r d k (level_index (suc n) va) at (omega arith)
              (user_level d n va deep user) here)
            (omega arith) (λ e. absurd (omega arith)) (rw here at h)
      | inr gone ↦ cc (rw gone at h)
    ]

-- A memory that keeps the present words of the tables keeps the way to the last-level tables.
pub kept-table_from :
    (n : ℕ) (owner : Owner) (mem mem' : ℕ → ℕ → ℕ) (f va r d k g : ℕ)
    → IsForest owner mem
    → ((q j : ℕ) (a : Place) → owner q ≡ some a → present (mem q j) ≡ true → mem' q j ≡ mem q j)
    → owner f ≡ some (place r d k)
    → d + n ≡ 3
    → (d ≡ 0 → UserAddress va)
    → table_from n mem f va ≡ some g
    → table_from n mem' f va ≡ some g
unfolding table_from
kept-table_from zero owner mem mem' f va r d k g forest words at deep user h = h
kept-table_from (suc n) owner mem mem' f va r d k g forest words at deep user h =
    elim (Bool-cases (present (mem f (level_index (suc n) va)))) [
      | inl here ↦
          rw (words f (level_index (suc n) va) (place r d k) at here, here)
            (kept-table_from n owner mem mem' (frame_of (mem f (level_index (suc n) va))) va r
              (suc d) (k * 512 + level_index (suc n) va) g forest words
              (forest.child f r d k (level_index (suc n) va) at (omega arith)
                (user_level d n va deep user) here)
              (omega arith) (λ e. absurd (omega arith)) (rw here at h))
      | inr gone ↦ cc (rw gone at h)
    ]

module _ (owner : Owner) (mem : ℕ → ℕ → ℕ) (f r k i e : ℕ) (forest : IsForest owner mem)
    (place_f : owner f ≡ some (place r 3 k)) where
  abbrev pub written : ℕ → ℕ → ℕ
  written = update mem f (update (mem f) i e)

  upper : (f' r' d' k' : ℕ) → owner f' ≡ some (place r' d' k') → d' ≢ 3 → written f' ≡ mem f'
  upper f' r' d' k' at ne = ground arith

  pub written-IsForest : IsForest owner written
  written-IsForest = record {
    child = λ f' r' d' k' i' at deep user here.
        let e : written f' ≡ mem f' = upper f' r' d' k' at (omega arith) in
        rw e (forest.child f' r' d' k' i' at deep user (rw e at here));
  }

  -- The entries of the other addresses, and of all addresses of the other trees, stay.
  pub written-entry_from_ne :
      (n f' va r' d' k' : ℕ)
      → owner f' ≡ some (place r' d' k')
      → d' + n ≡ 3
      → (d' ≡ 0 → UserAddress va)
      → (r' ≢ r) ⊎ (leaf_path n k' va ≢ k) ⊎ (level_index 0 va ≢ i)
      → entry_from n written f' va ≡ entry_from n mem f' va
  unfolding entry_from
  written-entry_from_ne zero f' va r' d' k' at deep user ne = ground arith
  written-entry_from_ne (suc n) f' va r' d' k' at deep user ne =
      rw (upper f' r' d' k' at (omega arith))
        (elim (Bool-cases (present (mem f' (level_index (suc n) va)))) [
          | inl here ↦ rw here (
              written-entry_from_ne n (frame_of (mem f' (level_index (suc n) va))) va r' (suc d')
                (k' * 512 + level_index (suc n) va)
                (forest.child f' r' d' k' (level_index (suc n) va) at (omega arith)
                  (user_level d' n va deep user) here)
                (omega arith) (λ e. absurd (omega arith)) ne)
          | inr gone ↦ rw gone
        ])

  -- The entry of an address whose last-level table was written at its index.
  pub written-entry_from :
      (n f' va r' d' k' : ℕ)
      → owner f' ≡ some (place r' d' k')
      → d' + n ≡ 3
      → (d' ≡ 0 → UserAddress va)
      → table_from n mem f' va ≡ some f
      → level_index 0 va ≡ i
      → entry_from n written f' va ≡ e
  unfolding entry_from table_from
  written-entry_from zero f' va r' d' k' at deep user found index = ground arith
  written-entry_from (suc n) f' va r' d' k' at deep user found index =
      rw (upper f' r' d' k' at (omega arith))
        (elim (Bool-cases (present (mem f' (level_index (suc n) va)))) [
          | inl here ↦ rw here (
              written-entry_from n (frame_of (mem f' (level_index (suc n) va))) va r' (suc d')
                (k' * 512 + level_index (suc n) va)
                (forest.child f' r' d' k' (level_index (suc n) va) at (omega arith)
                  (user_level d' n va deep user) here)
                (omega arith) (λ e. absurd (omega arith)) (rw here at found) index)
          | inr gone ↦ cc (rw gone at found)
        ])

  -- The way to the last-level tables stays.
  pub written-table_from :
      (n f' va r' d' k' : ℕ)
      → owner f' ≡ some (place r' d' k')
      → d' + n ≡ 3
      → (d' ≡ 0 → UserAddress va)
      → table_from n written f' va ≡ table_from n mem f' va
  unfolding table_from
  written-table_from zero f' va r' d' k' at deep user = refl
  written-table_from (suc n) f' va r' d' k' at deep user =
      rw (upper f' r' d' k' at (omega arith))
        (elim (Bool-cases (present (mem f' (level_index (suc n) va)))) [
          | inl here ↦ rw here (
              written-table_from n (frame_of (mem f' (level_index (suc n) va))) va r' (suc d')
                (k' * 512 + level_index (suc n) va)
                (forest.child f' r' d' k' (level_index (suc n) va) at (omega arith)
                  (user_level d' n va deep user) here)
                (omega arith) (λ e. absurd (omega arith)))
          | inr gone ↦ rw gone
        ])
