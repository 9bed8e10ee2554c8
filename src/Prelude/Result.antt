-- ===== src/Prelude/Result.antt =====
-- The results of functions that change a state, and the sequence of two of them.
use mathlib.Core.Path.{◌≡◌, refl}

-- `fault` is the use of a pointer that is NULL or was never set.
pub data Res {ℓ κ} (S : Type κ) (A : Type ℓ) : Type (ℓ ⊔ κ) where
  ok : A → S → Res S A
  fault : Res S A

module _ {κ ℓ μ} {S : Type κ} {A : Type ℓ} {B : Type μ} where
  abbrev pub and_then : Res S A → (A → S → Res S B) → Res S B
  and_then (ok a s) k = k a s
  and_then fault k = fault

  infixl 5 ◌>>=◌
  abbrev pub ◌>>=◌ : (S → Res S A) → (A → S → Res S B) → S → Res S B
  ◌>>=◌ m k s = and_then (m s) k

-- A run that does not fault, and what holds of its result and its last state.
pub data Returns {ℓ κ ι} {S : Type ι} {A : Type ℓ} (P : A → S → Type κ)
    : Res S A → Type (ℓ ⊔ κ ⊔ ι) where
  returns : {a : A} {s : S} → P a s → Returns P (ok a s)

pub Returns-and_then {ℓ κ μ ν ι} :
    {S : Type ι} {A : Type ℓ} {B : Type κ} {P : A → S → Type μ} {Q : B → S → Type ν} {r : Res S A}
    (k : A → S → Res S B)
    → Returns P r
    → ((a : A) (s : S) → P a s → Returns Q (k a s))
    → Returns Q (and_then r k)
Returns-and_then k (returns p) next = next _ _ p

pub Returns-map {ℓ κ μ ι} :
    {S : Type ι} {A : Type ℓ} {P : A → S → Type κ} {Q : A → S → Type μ} {r : Res S A}
    → Returns P r
    → ((a : A) (s : S) → P a s → Q a s)
    → Returns Q r
Returns-map (returns p) weaken = returns (weaken _ _ p)

pub and_then_assoc {ℓ κ μ ι} :
    {S : Type ι} {A : Type ℓ} {B : Type κ} {C : Type μ} (r : Res S A) (k : A → S → Res S B)
    (l : B → S → Res S C)
    → and_then (and_then r k) l ≡ and_then r (λ a s. and_then (k a s) l)
and_then_assoc (ok a s) k l = refl
and_then_assoc fault k l = refl
