-- ===== src/Mm/Walk/Root.antt =====
-- A cleared page as the top of a new tree of tables.
use myos_git.Prelude.{ℕ, ◌≡◌, false, none, some, List, arith, has, update}
use myos_git.Mm.State.{Mm}
use myos_git.Mm.Tables.{Owner, place, present-zero}
use myos_git.Mm.Walk.{IsTables, unowned-update}

module _ (owner : Owner) (s : Mm) (q : ℕ) (xs : List ℕ) where
  abbrev pub rooted : Owner
  rooted = update owner q (some (place q 0 0))

  pub rooted-IsTables :
      IsTables owner s xs
      → owner q ≡ none
      → has q xs ≡ false
      → ((j : ℕ) → s.mem q j ≡ 0)
      → IsTables rooted s xs
  rooted-IsTables w unowned out clear = record {
    free = w.free;
    forest = record {
      child = λ f r d k i at deep user here.
          ground (arith, at, here, w.forest.child f r d k i, clear i, present-zero, unowned);
    };
    unowned = unowned-update owner q (place q 0 0) xs out w.unowned;
  }
