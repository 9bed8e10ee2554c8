-- ===== src/Console/Number/Value.antt =====
-- What the printed digits stand for.
use myos_git.Prelude.{
  ℕ, zero, suc, ◌+◌, ◌-◌, ◌*◌, ◌/◌, ◌%◌, ◌^◌, ◌<◌, ◌≤◌, ◌≡◌, refl, ◌∙◌, inl, inr, List, [], ◌∷◌,
  ◌++◌, arith, ltb, if◌then◌else◌, length, length-append, Bool-cases,
}
use native.Mathlib.Nat.{pow-suc}
use myos_git.Console.Number.{strtab, unsigned_recursion}

-- A digit's value, and the value of a list of digits, the most significant one first.
unfoldable pub digit : ℕ → ℕ
digit c = if ltb c 58 then c - 48 else c - 87

pub value : ℕ → ℕ → List ℕ → ℕ
value base acc [] = acc
value base acc (c ∷ cs) = value base (acc * base + digit c) cs

digit-strtab : (d : ℕ) → d < 16 → digit (strtab d) ≡ d
unfolding digit strtab
digit-strtab d h = ground arith

value-snoc :
    (base acc c : ℕ) (cs : List ℕ)
    → value base acc (cs ++ c ∷ []) ≡ value base acc cs * base + digit c
unfolding value
value-snoc base acc c [] = refl
value-snoc base acc c (x ∷ cs) = value-snoc base (acc * base + digit x) c cs

-- One digit less halves the bound at least.
div_bound : (f val base : ℕ) → 2 ≤ base → val < 2 ^ suc f → val / base < 2 ^ f
div_bound f val base two bound = grind (arith, pow-suc 2 f)

module _ (base : ℕ) (two : 2 ≤ base) (most : base ≤ 16) where
  digit_of_mod : (val : ℕ) → digit (strtab (val % base)) ≡ val % base
  digit_of_mod val = digit-strtab (val % base) (grind arith)

  unsigned_recursion-value_fuel :
      (fuel val : ℕ)
      → val < 2 ^ fuel
      → (value base 0 (unsigned_recursion fuel val base).0 ≡ val)
        × ((unsigned_recursion fuel val base).1 ≡ length (unsigned_recursion fuel val base).0)
  unfolding unsigned_recursion value
  unsigned_recursion-value_fuel zero val bound = (omega arith, refl)
  unsigned_recursion-value_fuel (suc fuel) val bound = elim (Bool-cases (ltb val base)) [
    | inl small ↦ rw small (grind (arith, digit_of_mod val), refl)
    | inr large ↦
        let (v, n) =
          unsigned_recursion-value_fuel fuel (val / base) (div_bound fuel val base two bound) in
        let digits = (unsigned_recursion fuel (val / base) base).0 in
        rw large (
          value-snoc base 0 (strtab (val % base)) digits ∙ grind (arith, v, digit_of_mod val),
          omega (arith, n, length-append digits (strtab (val % base) ∷ [])),
        )
  ]

  pub unsigned_recursion-value :
      (val : ℕ)
      → val < 2 ^ 64
      → (value base 0 (unsigned_recursion 64 val base).0 ≡ val)
        × ((unsigned_recursion 64 val base).1 ≡ length (unsigned_recursion 64 val base).0)
  unsigned_recursion-value val bound = unsigned_recursion-value_fuel 64 val bound
