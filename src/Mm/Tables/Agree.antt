-- ===== src/Mm/Tables/Agree.antt =====
-- Memories that agree on the tables' frames have the same entries.
use myos_git.Prelude.{
  ℕ, zero, suc, ◌+◌, ◌*◌, ◌≡◌, ◌≢◌, refl, sym, ap, ◌∙◌, inl, inr, none, some, arith, ◌==◌,
  Bool-cases,
}
use myos_git.Mm.State.{Mm}
use myos_git.Mm.{frame_of, present, level_index}
use myos_git.Mm.Tables.{
  Owner, Place, place, IsForest, entry_from, UserAddress, user_level, entry_at,
}

module _ (owner : Owner) (mem mem' : ℕ → ℕ → ℕ) (forest : IsForest owner mem)
    (same : (f : ℕ) (a : Place) → owner f ≡ some a → mem' f ≡ mem f) where
  pub agree-IsForest : IsForest owner mem'
  agree-IsForest = record {
    child = λ f r d k i at deep user here.
        let e : mem' f i ≡ mem f i = λ j. same f (place r d k) at j i in
        ground (arith, e, at, forest.child f r d k i);
  }

  pub agree-entry_from :
      (n f va r d k : ℕ)
      → owner f ≡ some (place r d k)
      → d + n ≡ 3
      → (d ≡ 0 → UserAddress va)
      → entry_from n mem' f va ≡ entry_from n mem f va
  unfolding entry_from
  agree-entry_from zero f va r d k at deep user = λ j. same f (place r d k) at j (level_index 0 va)
  agree-entry_from (suc n) f va r d k at deep user =
      rw (same f (place r d k) at) (elim (Bool-cases (present (mem f (level_index (suc n) va)))) [
        | inl here ↦ rw here (
            agree-entry_from n (frame_of (mem f (level_index (suc n) va))) va r (suc d)
              (k * 512 + level_index (suc n) va)
              (forest.child f r d k (level_index (suc n) va) at (omega arith)
                (user_level d n va deep user) here)
              (omega arith) (λ e. absurd (omega arith)))
        | inr gone ↦ rw gone
      ])

-- The tables stand in frames other than a page that holds none.
module _ (owner : Owner) (s t : Mm) (p : ℕ) (data_page : owner p ≡ none)
    (kept : (q : ℕ) → q ≢ p → t.mem q ≡ s.mem q) where
  same_tables : (f : ℕ) (a : Place) → owner f ≡ some a → t.mem f ≡ s.mem f
  same_tables f a at = elim (Bool-cases (f == p)) [
    | inl same ↦
        let e : f ≡ p = ground arith in
        let clash : none ≡ some a = sym data_page ∙ ap owner (sym e) ∙ at in
        absurd (ground (arith, clash))
    | inr other ↦ kept f (ground arith)
  ]

  pub same_entry :
      (pgdir va : ℕ)
      → IsForest owner s.mem
      → owner pgdir ≡ some (place pgdir 0 0)
      → UserAddress va
      → entry_at t.mem pgdir va ≡ entry_at s.mem pgdir va
  same_entry pgdir va forest root user =
      agree-entry_from owner s.mem t.mem forest same_tables 3 pgdir va pgdir 0 0 root refl
        (λ e. user)

  pub same-IsForest : IsForest owner s.mem → IsForest owner t.mem
  same-IsForest forest = agree-IsForest owner s.mem t.mem forest same_tables
