-- ===== src/Console/Print/Formats.antt =====
-- What `print` puts on the screen.
use myos_git.Prelude.{
  ℕ, ◌+◌, ◌-◌, ◌%◌, ◌^◌, ◌<◌, ◌≤◌, ◌≡◌, refl, sym, ap, ◌∙◌, inl, inr, Bool, true, false, Option,
  none, some, List, [], ◌∷◌, ◌++◌, not, ◌&&◌, ◌==◌, arith, ltb, if◌then◌else◌, length,
  length-append, has, Bool-cases,
}
use mathlib.Core.Path.{subst, ap₂}
use mathlib.Core.List.{append-nil, append_assoc}
use myos_git.Console.Number.{unsigned_recursion}
use myos_git.Console.Number.Value.{unsigned_recursion-value}
use myos_git.Console.Print.{
  Arg, Printer, emit, print_unsigned, print_signed, number_from, text_from, print_number,
  print_char, print_loop, and_print, start, print, negated, width, text, word,
}

-- The number that `print` will return is the number of characters put so far.
abbrev Counts : Printer → Type 0
Counts p = p.num ≡ length p.out

emit-Counts : (cs : List ℕ) (n : ℕ) (p : Printer) → n ≡ length cs → Counts p → Counts (emit cs n p)
unfolding emit
emit-Counts cs n p e h = omega (arith, length-append p.out cs)

print_unsigned-Counts :
    (val base : ℕ) (p : Printer)
    → 2 ≤ base
    → base ≤ 16
    → val < 2 ^ 64
    → Counts p
    → Counts (print_unsigned val base p)
unfolding print_unsigned
print_unsigned-Counts val base p two most small h =
    emit-Counts (unsigned_recursion 64 val base).0 (unsigned_recursion 64 val base).1 p
      (unsigned_recursion-value base two most val small).1 h

negated-lt : (w v : ℕ) → 2 ^ w ≤ 2 ^ 64 → 0 < 2 ^ w → negated w v < 2 ^ 64
unfolding negated
negated-lt w v most bits = ground arith

module _ (w v : ℕ) (small : v < 2 ^ w) (most : 2 ^ w ≤ 2 ^ 64) where
  print_signed-Counts : (p : Printer) → Counts p → Counts (print_signed w v p)
  unfolding print_signed
  print_signed-Counts p h = elim (Bool-cases (ltb v (2 ^ (w - 1)))) [
    | inl pos ↦ rw pos (print_unsigned-Counts v 10 p (omega arith) (omega arith) (omega arith) h)
    | inr neg ↦ rw neg (
        print_unsigned-Counts (negated w v) 10 (emit (45 ∷ []) 1 p) (omega arith) (omega arith)
          (negated-lt w v most (omega arith)) (emit-Counts (45 ∷ []) 1 p refl h))
  ]

-- The widths that occur.
width-le : (p : Printer) → (2 ^ width p ≤ 2 ^ 64) × (0 < 2 ^ width p)
width-le p = elim (Bool-cases (p.lflags == 0)) [
  | inl short ↦ rw short (omega arith)
  | inr long ↦ rw long (omega arith)
]

-- The count is right if there is a result.
abbrev Ensures : Option Printer → Type 0
Ensures none = Unit
Ensures (some q) = Counts q

Ensures-if :
    (b : Bool) (x y : Option Printer) → Ensures x → Ensures y → Ensures (if b then x else y)
Ensures-if true x y hx hy = hx
Ensures-if false x y hx hy = hy

number_from-Ensures :
    (show : ℕ → Printer → Printer) (w : ℕ) (args : List Arg) (p : Printer)
    → ((v : ℕ) (r : Printer) → v < 2 ^ w → Counts r → Counts (show v r))
    → 0 < 2 ^ w
    → Counts p
    → Ensures (number_from show w args p)
unfolding number_from
number_from-Ensures show w [] p shows bits h = tt
number_from-Ensures show w (text cs ∷ rest) p shows bits h = tt
number_from-Ensures show w (word v ∷ rest) p shows bits h =
    shows (v % 2 ^ w) (record p { args = rest }) (grind arith) h

text_from-Ensures : (args : List Arg) (p : Printer) → Counts p → Ensures (text_from args p)
unfolding text_from
text_from-Ensures [] p h = tt
text_from-Ensures (word v ∷ rest) p h = tt
text_from-Ensures (text cs ∷ rest) p h = emit-Counts cs (length cs) p refl h

module _ (p : Printer) (h : Counts p) where
  unsigned-Ensures :
      (base : ℕ)
      → 2 ≤ base
      → base ≤ 16
      → Ensures (print_number (λ v. print_unsigned v base) (width p) p)
  unfolding print_number
  unsigned-Ensures base two most =
      number_from-Ensures (λ v. print_unsigned v base) (width p) p.args p
        (λ v r small k. print_unsigned-Counts v base r two most (omega (arith, width-le p)) k)
        (width-le p).1 h

  print_char-Ensures : (c : ℕ) → Ensures (print_char c p)
  unfolding print_char
  print_char-Ensures c = Ensures-if (c == b'%') _ _ h (
      Ensures-if (c == b'l' && not (p.pflags == 0)) _ _ h (
        Ensures-if (c == b'd' && not (p.pflags == 0)) _ _
          (number_from-Ensures (print_signed (width p)) (width p) p.args p
            (λ v r small k. print_signed-Counts (width p) v small (width-le p).0 r k) (width-le p).1
            h)
          (Ensures-if (c == b'x' && not (p.pflags == 0)) _ _
            (unsigned-Ensures 16 (omega arith) (omega arith))
            (Ensures-if (c == b'o' && not (p.pflags == 0)) _ _
              (unsigned-Ensures 8 (omega arith) (omega arith))
              (Ensures-if (c == b's' && not (p.pflags == 0)) _ _ (text_from-Ensures p.args p h)
                (emit-Counts (c ∷ []) 1 p refl h))))))

Ensures-and_print :
    (r : Option Printer) (k : Printer → Option Printer)
    → Ensures r
    → ((q : Printer) → Counts q → Ensures (k q))
    → Ensures (and_print r k)
Ensures-and_print none k h next = tt
Ensures-and_print (some q) k h next = next q h

print_loop-Ensures : (format : List ℕ) (p : Printer) → Counts p → Ensures (print_loop format p)
unfolding print_loop
print_loop-Ensures [] p h = h
print_loop-Ensures (c ∷ format) p h =
    Ensures-and_print (print_char c p) (print_loop format) (print_char-Ensures p h c)
      (λ q k. print_loop-Ensures format q k)

-- Whatever the format and the arguments, `print` returns the number of characters it has put.
pub print-num :
    (format : List ℕ) (args : List Arg) (p : Printer)
    → print format args ≡ some p
    → p.num ≡ length p.out
unfolding print
print-num format args p e = subst Ensures e (print_loop-Ensures format (start args) refl)

abbrev printer : List ℕ → ℕ → List Arg → Printer
printer out num args = record { out = out; num = num; pflags = 0; lflags = 0; args = args }

print_char-plain :
    (c : ℕ) (out : List ℕ) (num : ℕ) (args : List Arg)
    → (c == b'%') ≡ false
    → print_char c (printer out num args) ≡ some (printer (out ++ c ∷ []) (num + 1) args)
unfolding print_char
print_char-plain c out num args plain = ground arith

print_loop-plain :
    (format : List ℕ) (out : List ℕ) (num : ℕ) (args : List Arg)
    → has b'%' format ≡ false
    → print_loop format (printer out num args)
      ≡ some (printer (out ++ format) (num + length format) args)
unfolding print_loop
print_loop-plain [] out num args plain =
    ap₂ (λ o n. some (printer o n args)) (sym (append-nil out)) (omega arith)
print_loop-plain (c ∷ format) out num args plain =
    let same : (c == b'%') ≡ false = ground arith in
    rw (print_char-plain c out num args same) (
      print_loop-plain format (out ++ c ∷ []) (num + 1) args (ground arith)
      ∙ ap₂ (λ o n. some (printer o n args)) (append_assoc out (c ∷ []) format) (omega arith))

-- A format without a percent sign is put as it stands, and no argument is read.
pub print-plain :
    (format : List ℕ) (args : List Arg)
    → has b'%' format ≡ false
    → print format args
      ≡ some (record { out = format; num = length format; pflags = 0; lflags = 0; args = args })
unfolding print
print-plain format args plain =
    print_loop-plain format [] 0 args plain ∙ ap (λ n. some (printer format n args)) (omega arith)
