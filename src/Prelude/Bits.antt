-- ===== src/Prelude/Bits.antt =====
-- `&` with a low mask and `|` of disjoint fields as arithmetic, at every width.
use Prim.Native.Nat.{
  ℕ, zero, suc, ◌+◌, ◌-◌, ◌*◌, ◌/◌, ◌%◌, ◌^◌, ◌≤◌, ◌<◌, min, max, bit_and, bit_or, digits,
  bit_and-bitwise, bit_or-bitwise,
}
use mathlib.Core.Path.{◌≡◌, refl, sym, ap, ◌∙◌}
use mathlib.Core.Logic.{◌≢◌, inl, inr}
use myos_git.Prelude.Tests.{◌==◌, ==_iff, if◌then◌else◌, Bool-cases}
use native.Mathlib.Nat.{pow-suc, pow-zero, one-le-pow}
use native.Mathlib.Omega.{arith}

-- One binary digit at a time, given enough rounds.
module _ (base : ℕ → ℕ) (op : ℕ → ℕ → ℕ) where
  digits_rounds : (n m a b : ℕ) → a ≤ n → a ≤ m → digits base op n a b ≡ digits base op m a b
  digits_rounds zero zero a b p q = refl
  digits_rounds zero (suc m) zero b p q = refl
  digits_rounds zero (suc m) (suc a) b p q = absurd (omega arith)
  digits_rounds (suc n) zero zero b p q = refl
  digits_rounds (suc n) zero (suc a) b p q = absurd (omega arith)
  digits_rounds (suc n) (suc m) zero b p q = refl
  digits_rounds (suc n) (suc m) (suc a) b p q =
      omega (arith, digits_rounds n m (suc a / 2) (b / 2) (omega arith) (omega arith))

bit_or_digit : (a b : ℕ) → bit_or a b ≡ bit_or (a / 2) (b / 2) * 2 + max (a % 2) (b % 2)
bit_or_digit zero b = omega (arith, bit_or-bitwise 0 b, bit_or-bitwise 0 (b / 2))
bit_or_digit (suc a) b = omega (
  arith,
  bit_or-bitwise (suc a) b,
  bit_or-bitwise (suc a / 2) (b / 2),
  digits_rounds (λ b. b) max a (suc a / 2) (suc a / 2) (b / 2) (omega arith) (omega arith),
)

bit_and_digit : (a b : ℕ) → bit_and a b ≡ bit_and (a / 2) (b / 2) * 2 + min (a % 2) (b % 2)
bit_and_digit zero b = omega (arith, bit_and-bitwise 0 b, bit_and-bitwise 0 (b / 2))
bit_and_digit (suc a) b = omega (
  arith,
  bit_and-bitwise (suc a) b,
  bit_and-bitwise (suc a / 2) (b / 2),
  digits_rounds (λ b. zero) min a (suc a / 2) (suc a / 2) (b / 2) (omega arith) (omega arith),
)

-- Rounds `n` bound the number, so that each law is an induction on them.
bit_or-zero_rounds : (n a : ℕ) → a ≤ n → bit_or a 0 ≡ a
bit_or-zero_rounds n zero h = refl
bit_or-zero_rounds zero (suc a) h = absurd (omega arith)
bit_or-zero_rounds (suc n) (suc a) h =
    omega (arith, bit_or_digit (suc a) 0, bit_or-zero_rounds n (suc a / 2) (omega arith))

bit_and-zero_rounds : (n a : ℕ) → a ≤ n → bit_and a 0 ≡ 0
bit_and-zero_rounds n zero h = refl
bit_and-zero_rounds zero (suc a) h = absurd (omega arith)
bit_and-zero_rounds (suc n) (suc a) h =
    omega (arith, bit_and_digit (suc a) 0, bit_and-zero_rounds n (suc a / 2) (omega arith))

shift_suc : (q k : ℕ) → q * 2 ^ suc k ≡ 2 * (q * 2 ^ k)
shift_suc q k = omega (arith, ap (λ (t : ℕ). q * t) (pow-suc 2 k))

-- `(q << k) | r` is a sum when `r` fits `k` bits.
bit_or_comm_rounds : (n a b : ℕ) → a + b ≤ n → bit_or a b ≡ bit_or b a
bit_or_comm_rounds n zero zero h = refl
bit_or_comm_rounds zero zero (suc b) h = absurd (omega arith)
bit_or_comm_rounds zero (suc a) b h = absurd (omega arith)
bit_or_comm_rounds (suc n) zero (suc b) h = omega (
  arith,
  bit_or_digit zero (suc b),
  bit_or_digit (suc b) zero,
  bit_or_comm_rounds n zero (suc b / 2) (omega arith),
)
bit_or_comm_rounds (suc n) (suc a) b h = omega (
  arith,
  bit_or_digit (suc a) b,
  bit_or_digit b (suc a),
  bit_or_comm_rounds n (suc a / 2) (b / 2) (omega arith),
)

pub bit_or_comm : (a b : ℕ) → bit_or a b ≡ bit_or b a
bit_or_comm a b = bit_or_comm_rounds (a + b) a b (omega arith)

pub bit_or_fields : (k q r : ℕ) → r < 2 ^ k → bit_or (q * 2 ^ k) r ≡ q * 2 ^ k + r
bit_or_fields zero q r h = ground (arith, bit_or-zero_rounds q q)
bit_or_fields (suc k) q r h = ground (
  arith,
  bit_or_digit (q * 2 ^ suc k) r,
  shift_suc q k,
  pow-suc 2 k,
  bit_or_fields k q (r / 2) (omega (arith, pow-suc 2 k)),
)

bit_and_low : (k q r : ℕ) → r < 2 ^ k → bit_and (q * 2 ^ k + r) (2 ^ k - 1) ≡ r
bit_and_low zero q r h = ground (arith, bit_and-zero_rounds (q * 1 + r) (q * 1 + r))
bit_and_low (suc k) q r h = ground (
  arith,
  bit_and_digit (q * 2 ^ suc k + r) (2 ^ suc k - 1),
  shift_suc q k,
  pow-suc 2 k,
  one-le-pow k 2,
  bit_and_low k q (r / 2) (omega (arith, pow-suc 2 k)),
)

-- `a & (2^k - 1)` is the remainder by `2 ^ k`.
pub bit_and_mask : (k a : ℕ) → bit_and a (2 ^ k - 1) ≡ a % 2 ^ k
bit_and_mask k a = ground (arith, one-le-pow k 2, bit_and_low k (a / 2 ^ k) (a % 2 ^ k))

pub bit_and-one : (a : ℕ) → bit_and a 1 ≡ a % 2
bit_and-one = bit_and_mask 1

-- The bit at a position, counted from the lowest.
unfoldable pub bit : ℕ → ℕ → ℕ
bit zero a = a % 2
bit (suc k) a = bit k (a / 2)

pub bit-lt : (k a : ℕ) → bit k a < 2
unfolding bit
bit-lt zero a = omega arith
bit-lt (suc k) a = bit-lt k (a / 2)

-- `a & (1 << k)`.
pub bit_and-power : (k a : ℕ) → bit_and a (2 ^ k) ≡ bit k a * 2 ^ k
unfolding bit
bit_and-power zero a = omega (arith, bit_and-one a)
bit_and-power (suc k) a = omega (
  arith,
  bit_and_digit a (2 ^ suc k),
  pow-suc 2 k,
  ap (λ (t : ℕ). bit_and (a / 2) t) (half_power k),
  bit_and-power k (a / 2),
  ap (λ (t : ℕ). bit k (a / 2) * t) (pow-suc 2 k),
)
  where
    half_power : (k : ℕ) → 2 ^ suc k / 2 ≡ 2 ^ k
    half_power k = omega (arith, pow-suc 2 k)

pub bit-bit_and : (k a b : ℕ) → bit k (bit_and a b) ≡ min (bit k a) (bit k b)
unfolding bit
bit-bit_and zero a b = omega (arith, bit_and_digit a b)
bit-bit_and (suc k) a b =
    let e : bit_and a b / 2 ≡ bit_and (a / 2) (b / 2) = omega (arith, bit_and_digit a b) in
    ap (bit k) e ∙ bit-bit_and k (a / 2) (b / 2)

pub bit-ones : (w k : ℕ) → k < w → bit k (2 ^ w - 1) ≡ 1
unfolding bit
bit-ones zero k h = absurd (omega arith)
bit-ones (suc w) zero h = omega (arith, pow-suc 2 w, one-le-pow w 2)
bit-ones (suc w) (suc k) h =
    let e : (2 ^ suc w - 1) / 2 ≡ 2 ^ w - 1 = omega (arith, pow-suc 2 w, one-le-pow w 2) in
    ap (bit k) e ∙ bit-ones w k (omega arith)

pow-lt : (w k : ℕ) → k < w → 2 ^ k < 2 ^ w
pow-lt zero k h = absurd (omega arith)
pow-lt (suc w) zero h = omega (arith, pow-suc 2 w, one-le-pow w 2, pow-zero 2)
pow-lt (suc w) (suc k) h = omega (arith, pow-suc 2 w, pow-suc 2 k, pow-lt w k (omega arith))

-- `~(1 << k)` at `w` bits.
pub bit-mask_ne : (w k j : ℕ) → k < w → j < w → j ≢ k → bit j (2 ^ w - 1 - 2 ^ k) ≡ 1
unfolding bit
bit-mask_ne zero k j hk hj ne = absurd (omega arith)
bit-mask_ne (suc w) zero zero hk hj ne = absurd (omega arith)
bit-mask_ne (suc w) zero (suc j) hk hj ne =
    let e : (2 ^ suc w - 1 - 2 ^ 0) / 2 ≡ 2 ^ w - 1 =
      omega (arith, pow-suc 2 w, one-le-pow w 2, pow-zero 2) in
    ap (bit j) e ∙ bit-ones w j (omega arith)
bit-mask_ne (suc w) (suc k) zero hk hj ne =
    omega (arith, pow-suc 2 w, pow-suc 2 k, pow-lt w k (omega arith))
bit-mask_ne (suc w) (suc k) (suc j) hk hj ne =
    let e : (2 ^ suc w - 1 - 2 ^ suc k) / 2 ≡ 2 ^ w - 1 - 2 ^ k =
      omega (arith, pow-suc 2 w, pow-suc 2 k, pow-lt w k (omega arith)) in
    ap (bit j) e ∙ bit-mask_ne w k j (omega arith) (omega arith) (omega arith)

pub bit-mask_self : (w k : ℕ) → k < w → bit k (2 ^ w - 1 - 2 ^ k) ≡ 0
unfolding bit
bit-mask_self zero k hk = absurd (omega arith)
bit-mask_self (suc w) zero hk = omega (arith, pow-suc 2 w, one-le-pow w 2, pow-zero 2)
bit-mask_self (suc w) (suc k) hk =
    let e : (2 ^ suc w - 1 - 2 ^ suc k) / 2 ≡ 2 ^ w - 1 - 2 ^ k =
      omega (arith, pow-suc 2 w, pow-suc 2 k, pow-lt w k (omega arith)) in
    ap (bit k) e ∙ bit-mask_self w k (omega arith)

pub bit-bit_or : (k a b : ℕ) → bit k (bit_or a b) ≡ max (bit k a) (bit k b)
unfolding bit
bit-bit_or zero a b = omega (arith, bit_or_digit a b)
bit-bit_or (suc k) a b =
    let e : bit_or a b / 2 ≡ bit_or (a / 2) (b / 2) = omega (arith, bit_or_digit a b) in
    ap (bit k) e ∙ bit-bit_or k (a / 2) (b / 2)

pub bit-zero : (j : ℕ) → bit j 0 ≡ 0
unfolding bit
bit-zero zero = refl
bit-zero (suc j) = bit-zero j

-- `1 << k`.
pub bit-power_self : (k : ℕ) → bit k (2 ^ k) ≡ 1
unfolding bit
bit-power_self zero = refl
bit-power_self (suc k) =
    let e : 2 ^ suc k / 2 ≡ 2 ^ k = omega (arith, pow-suc 2 k) in ap (bit k) e ∙ bit-power_self k

pub bit-power_ne : (k j : ℕ) → j ≢ k → bit j (2 ^ k) ≡ 0
unfolding bit
bit-power_ne zero zero ne = absurd (ne refl)
bit-power_ne zero (suc j) ne = bit-zero j
bit-power_ne (suc k) zero ne = omega (arith, pow-suc 2 k)
bit-power_ne (suc k) (suc j) ne =
    let e : 2 ^ suc k / 2 ≡ 2 ^ k = omega (arith, pow-suc 2 k) in
    ap (bit j) e ∙ bit-power_ne k j (λ q. ne (ap suc q))

-- The low bits of a word that is cut to `w` bits.
pub bit-mod : (w k a : ℕ) → k < w → bit k (a % 2 ^ w) ≡ bit k a
bit-mod w k a h =
    ap (bit k) (sym (bit_and_mask w a))
    ∙ bit-bit_and k a (2 ^ w - 1)
    ∙ omega (arith, bit-ones w k h, bit-lt k a)

pub bit-power : (j k : ℕ) → bit k (2 ^ j) ≡ (if k == j then 1 else 0)
bit-power j k = elim (Bool-cases (k == j)) [
  | inl same ↦ rw same (ap (λ i. bit i (2 ^ j)) ((==_iff k j).0 same) ∙ bit-power_self j)
  | inr other ↦ rw other (bit-power_ne j k (λ e. cc (other, (==_iff k j).1 e)))
]
