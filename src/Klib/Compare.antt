-- ===== src/Klib/Compare.antt =====
-- `strcmp` on strings that end in NUL.
use myos_git.Prelude.{
  ℕ, zero, suc, ◌+◌, ◌<◌, ◌≡◌, ◌≢◌, Bool, true, false, some, List, [], ◌∷◌, arith, ◌&&◌, ◌==◌,
  if◌then◌else◌, length,
}
use myos_git.Prelude.Int.{pos}
use myos_git.Klib.{Bytes, strcmp}

-- The bytes `xs`, none of them zero, and a NUL stand at `p`.
abbrev pub IsString : Bytes → ℕ → List ℕ → Type 0
IsString mem p [] = mem p ≡ 0
IsString mem p (x ∷ xs) = (mem p ≡ x) × (x ≢ 0) × IsString mem (p + 1) xs

abbrev pub same : List ℕ → List ℕ → Bool
same [] [] = true
same [] (y ∷ ys) = false
same (x ∷ xs) [] = false
same (x ∷ xs) (y ∷ ys) = (x == y) && same xs ys

-- On strings that end in NUL, with more fuel than the first has characters, `strcmp` is 0 if they
-- are equal and 1 if not, whichever is the smaller; it never is -1.
pub strcmp_lem :
    (fuel : ℕ) (mem1 : Bytes) (s1 : ℕ) (mem2 : Bytes) (s2 : ℕ) (xs ys : List ℕ)
    → IsString mem1 s1 xs
    → IsString mem2 s2 ys
    → length xs < fuel
    → strcmp fuel mem1 s1 mem2 s2 ≡ some (if same xs ys then pos 0 else pos 1)
unfolding strcmp
strcmp_lem zero mem1 s1 mem2 s2 xs ys h k enough = absurd (omega arith)
strcmp_lem (suc fuel) mem1 s1 mem2 s2 [] [] h k enough = ground arith
strcmp_lem (suc fuel) mem1 s1 mem2 s2 [] (y ∷ ys) h k enough = ground arith
strcmp_lem (suc fuel) mem1 s1 mem2 s2 (x ∷ xs) [] h k enough = ground arith
strcmp_lem (suc fuel) mem1 s1 mem2 s2 (x ∷ xs) (y ∷ ys) h k enough =
    ground (arith, strcmp_lem fuel mem1 (s1 + 1) mem2 (s2 + 1) xs ys)
