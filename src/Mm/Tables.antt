-- ===== src/Mm/Tables.antt =====
-- The page tables as trees: which frame holds which table, and the entry of an address.
pub mod Agree
pub mod Leaf
use mathlib.Core.Path.{subst}
use myos_git.Prelude.{
  ℕ, zero, suc, ◌+◌, ◌*◌, ◌/◌, ◌%◌, ◌^◌, ◌<◌, ◌≡◌, refl, ◌≢◌, ◌⊎◌, inl, inr, Bool-cases, Bool, true,
  false, not, ◌&&◌, Option, none, some, List, arith, ◌==◌, if◌then◌else◌, update, has, bit_and,
  bit_or,
}
use myos_git.Prelude.Bits.{bit_and-one, bit_and_mask, bit_or_fields}
use myos_git.Mm.{page2pa, frame_of, present, level_index, table_flags, pte_p}

-- Where a table stands: its top-level table, its depth below it, and the indices that lead to it.
pub record Place : Type 0 where
  pub root : ℕ
  pub depth : ℕ
  pub path : ℕ

abbrev pub place : ℕ → ℕ → ℕ → Place
place r d k = record { root = r; depth = d; path = k }

abbrev pub Owner : Type 0
Owner = ℕ → Option Place

-- Indices below 511 at the top: entry 511 maps the kernel, and all top-level tables share it.
abbrev pub IsUserIndex : ℕ → ℕ → Type 0
IsUserIndex zero i = i < 511
IsUserIndex (suc d) i = Unit

-- `owner` says of each table's frame where the table stands, so no frame is a table twice.
pub record IsForest (owner : Owner) (mem : ℕ → ℕ → ℕ) : Type 0 where
  pub child :
      (f r d k i : ℕ)
      → owner f ≡ some (place r d k)
      → d < 3
      → IsUserIndex d i
      → present (mem f i) ≡ true
      → owner (frame_of (mem f i)) ≡ some (place r (suc d) (k * 512 + i))

-- The entry of the address, from a table with `n` levels below it; 0 where a level is missing.
unfoldable pub entry_from : ℕ → (ℕ → ℕ → ℕ) → ℕ → ℕ → ℕ
entry_from zero mem f va = mem f (level_index 0 va)
entry_from (suc n) mem f va =
    let rest = entry_from n mem (frame_of (mem f (level_index (suc n) va))) va in
    if present (mem f (level_index (suc n) va)) then rest else 0

abbrev pub entry_at : (ℕ → ℕ → ℕ) → ℕ → ℕ → ℕ
entry_at mem pgdir va = entry_from 3 mem pgdir va

pub level_index-lt : (n va : ℕ) → level_index n va < 512
unfolding level_index
level_index-lt n va = omega (arith, bit_and_mask 9 (va / 2 ^ (12 + 9 * n)))

pub present-zero : present 0 ≡ false
unfolding present
present-zero = refl

pub page2pa-eq-mul : (p : ℕ) → p < 2 ^ 52 → page2pa p ≡ p * 2 ^ 12
unfolding page2pa
page2pa-eq-mul p h = omega arith

-- The entry of a new table: its frame, present.
abbrev pub table_entry : ℕ → ℕ
table_entry p = bit_or (page2pa p) table_flags

table_entry-eq-add : (p : ℕ) → p < 2 ^ 52 → table_entry p ≡ p * 2 ^ 12 + 7
table_entry-eq-add p h = rw (page2pa-eq-mul p h) (bit_or_fields 12 p 7 (omega arith))

pub frame_of-entry : (p : ℕ) → p < 2 ^ 52 → frame_of (table_entry p) ≡ p
frame_of-entry p h = rw (table_entry-eq-add p h) (omega arith)

pub present-entry : (p : ℕ) → p < 2 ^ 52 → present (table_entry p) ≡ true
unfolding present
present-entry p h = ground (arith, table_entry-eq-add p h, bit_and-one (table_entry p))

-- A table that is all zero has no entry.
entry_from-zero :
    (n : ℕ) (mem : ℕ → ℕ → ℕ) (f va : ℕ) → ((j : ℕ) → mem f j ≡ 0) → entry_from n mem f va ≡ 0
unfolding entry_from
entry_from-zero zero mem f va h = h (level_index 0 va)
entry_from-zero (suc n) mem f va h = rw (h (level_index (suc n) va), present-zero)

abbrev pub UserAddress : ℕ → Type 0
UserAddress va = level_index 3 va < 511

pub user_level :
    (d n va : ℕ) → d + suc n ≡ 3 → (d ≡ 0 → UserAddress va) → IsUserIndex d (level_index (suc n) va)
user_level zero n va deep user =
    let two : 2 ≡ n = omega arith in subst (λ m. level_index (suc m) va < 511) two (user refl)
user_level (suc d) n va deep user = tt

-- A new, cleared table `p` behind the entry `i` of the table `f`.
module _ (owner : Owner) (mem : ℕ → ℕ → ℕ) (f r d k i p : ℕ) (forest : IsForest owner mem)
    (place_f : owner f ≡ some (place r d k)) (fresh : owner p ≡ none)
    (clear : (j : ℕ) → mem p j ≡ 0) (absent : present (mem f i) ≡ false) (small : p < 2 ^ 52) where
  abbrev pub grown : ℕ → ℕ → ℕ
  grown = update mem f (update (mem f) i (table_entry p))

  abbrev pub grown_owner : Owner
  grown_owner = update owner p (some (place r (suc d) (k * 512 + i)))

  f-ne-p : f ≢ p
  f-ne-p e = ground (arith, e)

  pub grown-IsForest : IsForest grown_owner grown
  grown-IsForest = record {
    child = λ f' r' d' k' i' at deep user here. ground (
      arith,
      at,
      here,
      forest.child f' r' d' k' i',
      frame_of-entry p small,
      f-ne-p,
      clear i',
      present-zero,
    );
  }

  grown-word : (f' j : ℕ) → ((f' ≡ f) × (j ≡ i)) ⊎ (grown f' j ≡ mem f' j)
  grown-word f' j = elim (Bool-cases (f == f')) [
    | inl same ↦ elim (Bool-cases (i == j)) [
      | inl hit ↦ inl (ground arith, ground arith)
      | inr miss ↦ inr (ground arith)
    ]
    | inr other ↦ inr (ground arith)
  ]

  grown-p : (n va : ℕ) → entry_from n grown p va ≡ 0
  grown-p n va = entry_from-zero n grown p va (λ j. ground (arith, clear j, f-ne-p))

  pub grown-hit : grown f i ≡ table_entry p
  grown-hit = ground arith

  -- Growing changes no entry of any address: where the new table is met, it is empty.
  pub grown-entry_from :
      (n f' va r' d' k' : ℕ)
      → owner f' ≡ some (place r' d' k')
      → d' + n ≡ 3
      → d < 3
      → (d' ≡ 0 → UserAddress va)
      → entry_from n grown f' va ≡ entry_from n mem f' va
  unfolding entry_from
  grown-entry_from zero f' va r' d' k' at deep shallow user = ground arith
  grown-entry_from (suc n) f' va r' d' k' at deep shallow user =
      elim (grown-word f' (level_index (suc n) va)) [
        | inl (same, hit) ↦
            rw
              (
                same,
                hit,
                grown-hit,
                present-entry p small,
                frame_of-entry p small,
                grown-p n va,
                absent,
              )
              refl
        | inr kept ↦ rw kept (elim (Bool-cases (present (mem f' (level_index (suc n) va)))) [
          | inl here ↦ rw here (
              grown-entry_from n (frame_of (mem f' (level_index (suc n) va))) va r' (suc d')
                (k' * 512 + level_index (suc n) va)
                (forest.child f' r' d' k' (level_index (suc n) va) at (omega arith)
                  (user_level d' n va deep user) here)
                (omega arith) shallow (λ e. absurd (omega arith)))
          | inr gone ↦ rw gone
        ])
      ]
