-- ===== src/Mm/Walk/Descend.antt =====
-- A walk of any number of levels, each entered by one step, and what it leaves alone.
use myos_git.Prelude.{
  ℕ, zero, suc, ◌+◌, ◌*◌, ◌<◌, ◌≤◌, ◌≡◌, refl, ap, ◌∙◌, inl, inr, true, false, some, List, [], ◌∷◌,
  arith, if◌then◌else◌, has, length, Bool-cases,
}
use myos_git.Mm.State.{
  Mm, Run, ok, and_then, ◌>>=◌, Returns, returns, Returns-and_then, Returns-map,
}
use myos_git.Mm.Tables.{
  Owner, Place, place, UserAddress, user_level, IsUserIndex, present-entry, frame_of-entry,
}
use myos_git.Mm.Tables.Leaf.{table_from, leaf_path}
use myos_git.Mm.Walk.{
  IsTables, Extends, Keeps, made_owner, made-IsTables, made-Keeps, made_word, new_table-eq-made,
}
use myos_git.Mm.{new_table, frame_of, present, level_index}

-- One level: the table behind the entry, made first if the entry is absent.
unfoldable pub step : ℕ → ℕ → Mm → Run ℕ
step f i s = if present (s.mem f i) then ok (frame_of (s.mem f i)) s else new_table f i s

unfoldable pub descend : ℕ → ℕ → ℕ → Mm → Run ℕ
unfolding step
descend zero f va = ok f
descend (suc n) f va = step f (level_index (suc n) va) >>= λ g. descend n g va

module _ (n f va : ℕ) (s : Mm) where
  pub descend-present :
      present (s.mem f (level_index (suc n) va)) ≡ true
      → descend (suc n) f va s ≡ descend n (frame_of (s.mem f (level_index (suc n) va))) va s
  unfolding descend
  descend-present here = rw here

  pub descend-absent :
      present (s.mem f (level_index (suc n) va)) ≡ false
      → descend (suc n) f va s
        ≡ and_then (new_table f (level_index (suc n) va) s) (λ g. descend n g va)
  unfolding descend
  descend-absent absent = rw absent

-- From `s` to `t`, at most `n` of the free pages `xs` became tables.
pub record Grows (owner : Owner) (s : Mm) (xs : List ℕ) (n : ℕ) (t : Mm) : Type 0 where
  pub owner' : Owner
  pub left : List ℕ
  pub tables : IsTables owner' t left
  pub extends : Extends owner owner'
  pub keeps : Keeps owner s t xs
  pub enough : length xs ≤ length left + n
  pub fewer : (q : ℕ) → has q xs ≡ false → has q left ≡ false
  pub same_owner : (q : ℕ) → has q xs ≡ false → owner' q ≡ owner q

abbrev Grows-refl :
    (owner : Owner) (s : Mm) (xs : List ℕ) (n : ℕ) → IsTables owner s xs → Grows owner s xs n s
Grows-refl owner s xs n w = record {
  owner' = owner;
  left = xs;
  tables = w;
  extends = λ q a at. at;
  keeps = record {
    words = λ q j a at h. refl;
    entries = λ m g va r' d' k' at deep u. refl;
    pages = λ q out. refl;
    frames = λ q j out unowned. refl;
    flushed = refl;
  };
  enough = omega arith;
  fewer = λ q out. out;
  same_owner = λ q out. refl;
}

record Stepped (owner : Owner) (s : Mm) (xs : List ℕ) (f i : ℕ) (a : Place) (g : ℕ) (t : Mm)
    : Type 0 where
  grows : Grows owner s xs 1 t
  at : grows.owner' g ≡ some a
  here : present (t.mem f i) ≡ true
  behind : frame_of (t.mem f i) ≡ g

module _ (owner : Owner) (s : Mm) (f r d k i : ℕ) (place_f : owner f ≡ some (place r d k))
    (shallow : d < 3) (user : IsUserIndex d i) where
  step-Stepped :
      (xs : List ℕ)
      → IsTables owner s xs
      → 1 ≤ length xs
      → Returns (Stepped owner s xs f i (place r (suc d) (k * 512 + i))) (step f i s)
  unfolding step
  step-Stepped [] w many = absurd (omega arith)
  step-Stepped (p ∷ xs) w many = elim (Bool-cases (present (s.mem f i))) [
    | inl here ↦ rw here (
        returns (record {
          grows = Grows-refl owner s (p ∷ xs) 1 w;
          at = w.forest.child f r d k i place_f shallow user here;
          here = here;
          behind = refl;
        }))
    | inr absent ↦
        rw (absent, new_table-eq-made w.free f i)
          (returns (record {
            grows = record {
              owner' = made_owner owner s f r d k i p xs w place_f shallow absent;
              left = xs;
              tables = made-IsTables owner s f r d k i p xs w place_f shallow absent;
              extends = λ q a at. ground (arith, w.unowned);
              keeps = made-Keeps owner s f r d k i p xs w place_f shallow absent;
              enough = omega arith;
              fewer = λ q out. ground arith;
              same_owner = λ q out. ground arith;
            };
            at = ground arith;
            here =
                rw (made_word owner s f r d k i p xs w place_f shallow absent)
                  (present-entry p w.free.unused.0.1);
            behind =
                rw (made_word owner s f r d k i p xs w place_f shallow absent)
                  (frame_of-entry p w.free.unused.0.1);
          }))
  ]

Keeps-trans :
    (owner owner' : Owner) (s t u : Mm) (xs ys : List ℕ)
    → Extends owner owner'
    → ((q : ℕ) → has q xs ≡ false → has q ys ≡ false)
    → ((q : ℕ) → has q xs ≡ false → owner' q ≡ owner q)
    → Keeps owner s t xs
    → Keeps owner' t u ys
    → Keeps owner s u xs
Keeps-trans owner owner' s t u xs ys ext fewer same a b = record {
  words = λ q j pl at here.
      let e = a.words q j pl at here in b.words q j pl (ext q pl at) (ap present e ∙ here) ∙ e;
  entries = λ n f va r d k at deep user.
      b.entries n f va r d k (ext f _ at) deep user ∙ a.entries n f va r d k at deep user;
  pages = λ q out. b.pages q (fewer q out) ∙ a.pages q out;
  frames = λ q j out unowned.
      b.frames q j (fewer q out) (same q out ∙ unowned) ∙ a.frames q j out unowned;
  flushed = b.flushed ∙ a.flushed;
}

-- `g` is the last-level table of the address below `f`.
pub record Descended (owner : Owner) (s : Mm) (xs : List ℕ) (n f va r k g : ℕ) (t : Mm)
    : Type 0 where
  pub grows : Grows owner s xs n t
  pub at : grows.owner' g ≡ some (place r 3 (leaf_path n k va))
  pub found : table_from n t.mem f va ≡ some g

Descended-step :
    (owner : Owner) (s : Mm) (xs : List ℕ) (n f va r d k g h : ℕ) (t u : Mm)
    → owner f ≡ some (place r d k)
    → (st : Stepped owner s xs f
        (level_index (suc n) va)
        (place r (suc d) (k * 512 + level_index (suc n) va))
        g
        t)
    → Descended st.grows.owner' t st.grows.left n g va r (k * 512 + level_index (suc n) va) h u
    → Descended owner s xs (suc n) f va r k h u
unfolding table_from
Descended-step owner s xs n f va r d k g h t u place_f st de = record {
  grows = record {
    owner' = de.grows.owner';
    left = de.grows.left;
    tables = de.grows.tables;
    extends = λ q a at. de.grows.extends q a (st.grows.extends q a at);
    keeps =
        Keeps-trans owner st.grows.owner' s t u xs st.grows.left st.grows.extends st.grows.fewer
          st.grows.same_owner st.grows.keeps de.grows.keeps;
    enough = omega (arith, st.grows.enough, de.grows.enough);
    fewer = λ q out. de.grows.fewer q (st.grows.fewer q out);
    same_owner = λ q out. de.grows.same_owner q (st.grows.fewer q out) ∙ st.grows.same_owner q out;
  };
  at = de.at;
  found =
      let e =
        de.grows.keeps.words f (level_index (suc n) va) (place r d k)
          (st.grows.extends f (place r d k) place_f) st.here in
      rw (e, st.here, st.behind) de.found;
}

-- With `n` free pages left the walk down `n` levels does not fault.
pub descend-Descended :
    (n : ℕ) (owner : Owner) (s : Mm) (xs : List ℕ) (f va r d k : ℕ)
    → IsTables owner s xs
    → owner f ≡ some (place r d k)
    → d + n ≡ 3
    → (d ≡ 0 → UserAddress va)
    → n ≤ length xs
    → Returns (Descended owner s xs n f va r k) (descend n f va s)
unfolding descend table_from
descend-Descended zero owner s xs f va r d k w place_f deep user many = returns (record {
  grows = Grows-refl owner s xs 0 w;
  at = let three : d ≡ 3 = omega arith in rw place_f (ap (λ m. some (place r m k)) three);
  found = refl;
})
descend-Descended (suc n) owner s xs f va r d k w place_f deep user many =
    Returns-and_then (λ g. descend n g va)
      (step-Stepped owner s f r d k (level_index (suc n) va) place_f (omega arith)
        (user_level d n va deep user) xs w (omega arith))
      (λ g t st.
        Returns-map
          (descend-Descended n st.grows.owner' t st.grows.left g va r (suc d)
            (k * 512 + level_index (suc n) va) st.grows.tables st.at (omega arith)
            (λ e. absurd (omega arith)) (omega (arith, st.grows.enough)))
          (λ h u de. Descended-step owner s xs n f va r d k g h t u place_f st de))
