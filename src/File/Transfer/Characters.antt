-- ===== src/File/Transfer/Characters.antt =====
-- `cons_read` and `cons_write` as the queue of the keyboard and the characters of the screen.
use myos_git.Prelude.{
  ℕ, zero, suc, ◌+◌, ◌<◌, ◌≡◌, refl, ap, ◌∙◌, false, Option, none, some, List, [], ◌∷◌, arith, ◌==◌,
  length, update, All,
}
use myos_git.Prelude.Int.{ℤ, pos}
use myos_git.Klib.{Bytes}
use myos_git.Console.Screen.{myputchar, put_all}
use myos_git.Console.Keyboard.{Kbs, get_kbdata}
use myos_git.Console.Keyboard.Fifo.{IsRing, contents, read_out, dequeued, contents-get_kbdata}
use myos_git.File.State.{Kernel}
use myos_git.File.Transfer.{take_char, cons_read, cons_write}

-- The first n bytes, and the bytes behind them.
abbrev pub take : ℕ → List ℕ → List ℕ
take zero xs = []
take (suc n) [] = []
take (suc n) (x ∷ xs) = x ∷ take n xs

abbrev pub drop : ℕ → List ℕ → List ℕ
drop zero xs = xs
drop (suc n) [] = []
drop (suc n) (x ∷ xs) = drop n xs

-- The memory with the bytes from `buf` on.
abbrev pub stored : Bytes → ℕ → List ℕ → Bytes
stored mem buf [] = mem
stored mem buf (x ∷ xs) = stored (update mem buf x) (buf + 1) xs

-- The n bytes from `buf` on.
abbrev pub bytes_at : Bytes → ℕ → ℕ → List ℕ
bytes_at mem buf zero = []
bytes_at mem buf (suc n) = mem buf ∷ bytes_at mem (buf + 1) n

-- `cons_write` puts the n bytes on the screen, one after the other, changes nothing else and returns
-- their number.
pub cons_write-eq-put_all :
    (n buf i : ℕ) (k : Kernel)
    → cons_write n buf i k ≡ (
      pos (i + n),
      record k {
        terminal = record k.terminal {
          screen = put_all (bytes_at k.memory buf n) k.terminal.screen;
        };
      },
    )
unfolding cons_write put_all
cons_write-eq-put_all zero buf i k = ap (λ m. (pos m, k)) (omega arith)
cons_write-eq-put_all (suc n) buf i k =
    let t = k.terminal in
    let last = record k {
      terminal = record t { screen = put_all (bytes_at k.memory buf (suc n)) t.screen };
    } in
    cons_write-eq-put_all n (buf + 1) (i + 1)
      (record k { terminal = record t { screen = myputchar (k.memory buf) t.screen } })
    ∙ ap (λ m. (pos m, last)) (omega arith)

-- What a read of at most n waiting bytes does.
abbrev pub IsTyped : (n buf i : ℕ) → Kernel → List ℕ → ℤ × Kernel → Type 0
IsTyped n buf i k waiting (v, k1) =
    (v ≡ pos (i + length (take n waiting)))
    × (k1.memory ≡ stored k.memory buf (take n waiting))
    × (contents k1.terminal.kbs ≡ drop n waiting)
    × (k1.terminal.screen ≡ k.terminal.screen)
    × IsRing k1.terminal.kbs

value_of : Option ℕ × List ℕ → ℕ
value_of (none, l) = 0
value_of (some c, l) = c

-- What the loop does from a state whose queue holds the list.
abbrev Reads : (n buf i : ℕ) → Type 0
Reads n buf i =
    (k : Kernel) (waiting : List ℕ)
    → IsRing k.terminal.kbs
    → contents k.terminal.kbs ≡ waiting
    → All (λ c. c < 255) waiting
    → IsTyped n buf i k waiting (cons_read n buf i k)

take_char-IsTyped :
    (n buf i : ℕ) (k : Kernel) (xs : List ℕ) (r : Option ℕ × Kbs)
    → Reads n (buf + 1) (i + 1)
    → read_out r ≡ dequeued xs
    → IsRing r.1
    → All (λ c. c < 255) xs
    → IsTyped (suc n) buf i k xs (take_char r buf i (cons_read n (buf + 1) (i + 1)) k)
unfolding value_of take_char
take_char-IsTyped n buf i k [] (none, kbs) next e ring small =
    (ap pos (omega arith), refl, ap (λ p. p.1) e, refl, ring)
take_char-IsTyped n buf i k [] (some c, kbs) next e ring small = absurd (ground arith)
take_char-IsTyped n buf i k (x ∷ xs) (none, kbs) next e ring small = absurd (ground arith)
take_char-IsTyped n buf i k (x ∷ xs) (some c, kbs) next e ring (lt, small) =
    let same : c ≡ x = ap value_of e in
    let other : (c == 255) ≡ false = ground arith in
    let t = k.terminal in
    let k1 = record k { terminal = record t { kbs = kbs }; memory = update k.memory buf c } in
    let (v, mem, rest, scr, ring2) = next k1 xs ring (ap (λ p. p.1) e) small in
    rw other (
      v ∙ ap pos (omega arith),
      mem ∙ ap (λ d. stored (update k.memory buf d) (buf + 1) (take n xs)) same,
      rest,
      scr,
      ring2,
    )

cons_read-list : (n buf i : ℕ) → Reads n buf i
unfolding cons_read
cons_read-list zero buf i k waiting ring e small = (ap pos (omega arith), refl, e, refl, ring)
cons_read-list (suc n) buf i k waiting ring e small =
    let got = contents-get_kbdata k.terminal.kbs ring in
    take_char-IsTyped n buf i k waiting (get_kbdata k.terminal.kbs)
      (cons_read-list n (buf + 1) (i + 1)) (got.0 ∙ ap dequeued e) got.1 small

-- `cons_read` of at most n bytes gives the user the first bytes of the keyboard's queue, in their
-- order, and leaves the others in the queue; the result is how many they are, 0 with none waiting. The
-- condition is that no byte reads as the -1 of a `char`.
pub cons_read-IsTyped :
    (n buf : ℕ) (k : Kernel)
    → IsRing k.terminal.kbs
    → All (λ c. c < 255) (contents k.terminal.kbs)
    → IsTyped n buf 0 k (contents k.terminal.kbs) (cons_read n buf 0 k)
cons_read-IsTyped n buf k ring small =
    cons_read-list n buf 0 k (contents k.terminal.kbs) ring refl small
