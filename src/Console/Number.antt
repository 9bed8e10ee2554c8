-- ===== src/Console/Number.antt =====
-- The number printers of kernel/console.c: `unsigned_recursion` and `itoa`.
pub mod Value
use myos_git.Prelude.{
  ℕ, zero, suc, ◌+◌, ◌-◌, ◌*◌, ◌/◌, ◌%◌, List, [], ◌∷◌, ◌++◌, ◌==◌, ltb, if◌then◌else◌,
}

-- `strtab`, "0123456789abcdef".
pub strtab : ℕ → ℕ
strtab d = if ltb d 10 then 48 + d else 87 + d

-- The characters given to `myputchar`, in order, and the number returned. The depth of the recursion
-- is bounded by the fuel; an unsigned long has 64 binary digits.
pub unsigned_recursion : ℕ → ℕ → ℕ → List ℕ × ℕ
unfolding strtab
unsigned_recursion zero val base = ([], 0)
unsigned_recursion (suc fuel) val base =
    let rest = unsigned_recursion fuel (val / base) base in
    if ltb val base
    then (strtab (val % base) ∷ [], 1)
    else (rest.0 ++ strtab (val % base) ∷ [], 1 + rest.1)

-- The loop of `itoa`: `i` is the index of the next byte of `buf`, and `tail` is what stands behind it
-- up to the final NUL.
itoa_loop : ℕ → ℕ → ℕ → List ℕ → List ℕ
unfolding strtab
itoa_loop zero val base tail = tail
itoa_loop (suc i) val base tail =
    let rest = itoa_loop i (val / base) base (strtab (val % base) ∷ tail) in
    if val == 0 then tail else rest

-- The string that `itoa` returns.
pub itoa : ℕ → ℕ → List ℕ
itoa val base = if val == 0 then 48 ∷ [] else itoa_loop 30 val base []
