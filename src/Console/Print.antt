-- ===== src/Console/Print.antt =====
-- `print` of kernel/console.c. The format and the string arguments are their bytes before the NUL.
pub mod Formats
use myos_git.Prelude.{
  ℕ, zero, suc, ◌+◌, ◌-◌, ◌*◌, ◌%◌, ◌^◌, Bool, Option, none, some, List, [], ◌∷◌, ◌++◌, not, ◌&&◌,
  ◌==◌, ltb, if◌then◌else◌, length,
}
use myos_git.Console.Number.{unsigned_recursion}

-- An argument: the 64 bits of a slot, or the text that a pointer leads to.
pub data Arg : Type 0 where
  word : ℕ → Arg
  text : List ℕ → Arg

-- The characters given to `myputchar` so far, `num`, the two flags and the arguments left.
pub record Printer : Type 0 where
  pub out : List ℕ
  pub num : ℕ
  pub pflags : ℕ
  pub lflags : ℕ
  pub args : List Arg

emit : List ℕ → ℕ → Printer → Printer
emit cs n p = record p { out = p.out ++ cs; num = p.num + n }

-- `-v` of a negative number of `w` bits, given by its bits, as an unsigned long.
negated : ℕ → ℕ → ℕ
negated w v = let m = (2 ^ w - v) % 2 ^ w in if ltb m (2 ^ (w - 1)) then m else m + 2 ^ 64 - 2 ^ w

print_unsigned : ℕ → ℕ → Printer → Printer
unfolding emit
print_unsigned val base p =
    let (cs, n) = unsigned_recursion 64 val base in record (emit cs n p) { pflags = 0 }

-- A signed number of `w` bits: the sign and `num++` first.
print_signed : ℕ → ℕ → Printer → Printer
unfolding emit print_unsigned negated
print_signed w v p =
    if ltb v (2 ^ (w - 1))
    then print_unsigned v 10 p
    else print_unsigned (negated w v) 10 (emit (45 ∷ []) 1 p)

-- How many bits `%d`, `%x` and `%o` read. The source never resets `lflags`.
abbrev width : Printer → ℕ
width p = if p.lflags == 0 then 32 else 64

-- The next argument as a number of `w` bits, printed by `show`; none where the arguments do not fit
-- the format, which C leaves undefined.
number_from : (ℕ → Printer → Printer) → ℕ → List Arg → Printer → Option Printer
number_from show w [] p = none
number_from show w (text cs ∷ rest) p = none
number_from show w (word v ∷ rest) p = some (show (v % 2 ^ w) (record p { args = rest }))

print_number : (ℕ → Printer → Printer) → ℕ → Printer → Option Printer
unfolding number_from
print_number show w p = number_from show w p.args p

text_from : List Arg → Printer → Option Printer
unfolding emit
text_from [] p = none
text_from (word v ∷ rest) p = none
text_from (text cs ∷ rest) p = some (record (emit cs (length cs) p) { pflags = 0; args = rest })

print_text : Printer → Option Printer
unfolding text_from
print_text p = text_from p.args p

-- One round of the loop, at the character `c` of the format.
print_char : ℕ → Printer → Option Printer
unfolding emit print_number print_signed print_unsigned print_text
print_char c p =
    if c == b'%'
    then some (record p { pflags = p.pflags + 1 })
    else if c == b'l' && not (p.pflags == 0)
    then some (record p { lflags = p.lflags + 1 })
    else if c == b'd' && not (p.pflags == 0)
    then print_number (print_signed (width p)) (width p) p
    else if c == b'x' && not (p.pflags == 0)
    then print_number (λ v. print_unsigned v 16) (width p) p
    else if c == b'o' && not (p.pflags == 0)
    then print_number (λ v. print_unsigned v 8) (width p) p
    else if c == b's' && not (p.pflags == 0)
    then print_text p
    else some (emit (c ∷ []) 1 p)

abbrev and_print : Option Printer → (Printer → Option Printer) → Option Printer
and_print none k = none
and_print (some p) k = k p

print_loop : List ℕ → Printer → Option Printer
print_loop [] p = some p
print_loop (c ∷ format) p = and_print (print_char c p) (print_loop format)

abbrev start : List Arg → Printer
start args = record { out = []; num = 0; pflags = 0; lflags = 0; args = args }

pub print : List ℕ → List Arg → Option Printer
print format args = print_loop format (start args)
