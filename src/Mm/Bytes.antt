-- ===== src/Mm/Bytes.antt =====
-- The memory of kernel/mm.c by its bytes, as `memcpy` of lib/lib.c writes them. A word has its lowest byte first.
use myos_git.Prelude.{
  ℕ, zero, suc, ◌+◌, ◌*◌, ◌/◌, ◌%◌, ◌^◌, ◌≡◌, ◌≢◌, inl, inr, refl, ap, ◌∙◌, arith, update, ◌==◌,
  ==_iff, Bool-cases,
}
use myos_git.Mm.{page_size}

-- A byte written to a word, by its place in it, and to the memory, by its address.
unfoldable pub with_byte : ℕ → ℕ → ℕ → ℕ
with_byte zero b word = word / 2 ^ 8 * 2 ^ 8 + b % 2 ^ 8
with_byte (suc i) b word = with_byte i b (word / 2 ^ 8) * 2 ^ 8 + word % 2 ^ 8

unfoldable pub put_byte : ℕ → ℕ → (ℕ → ℕ → ℕ) → ℕ → ℕ → ℕ
put_byte a b mem = update mem (a / page_size) (
    update (mem (a / page_size)) (a % page_size / 8)
      (with_byte (a % 8) b (mem (a / page_size) (a % page_size / 8))))

-- `memcpy` of `length` bytes that the caller has at `addr`, to an address.
unfoldable pub put_bytes : ℕ → ℕ → (ℕ → ℕ) → (ℕ → ℕ → ℕ) → ℕ → ℕ → ℕ
unfolding put_byte
put_bytes a zero bytes mem = mem
put_bytes a (suc n) bytes mem = put_bytes (a + 1) n (λ i. bytes (i + 1)) (put_byte a (bytes 0) mem)

-- The byte at an address.
unfoldable pub byte_of : ℕ → ℕ → ℕ
byte_of zero word = word % 2 ^ 8
byte_of (suc i) word = byte_of i (word / 2 ^ 8)

unfoldable pub read_byte : ℕ → (ℕ → ℕ → ℕ) → ℕ
unfolding byte_of
read_byte a mem = byte_of (a % 8) (mem (a / page_size) (a % page_size / 8))

high_part : (x word : ℕ) → (x * 2 ^ 8 + word % 2 ^ 8) / 2 ^ 8 ≡ x
high_part x word = omega arith

byte_of-with_byte : (i b word : ℕ) → byte_of i (with_byte i b word) ≡ b % 2 ^ 8
unfolding byte_of with_byte
byte_of-with_byte zero b word = omega arith
byte_of-with_byte (suc i) b word =
    ap (byte_of i) (high_part (with_byte i b (word / 2 ^ 8)) word)
    ∙ byte_of-with_byte i b (word / 2 ^ 8)

byte_of-with_other : (i j b word : ℕ) → i ≢ j → byte_of i (with_byte j b word) ≡ byte_of i word
unfolding byte_of with_byte
byte_of-with_other zero zero b word ne = absurd (ne refl)
byte_of-with_other zero (suc j) b word ne = omega arith
byte_of-with_other (suc i) zero b word ne = ap (byte_of i) (high_part (word / 2 ^ 8) b)
byte_of-with_other (suc i) (suc j) b word ne =
    ap (byte_of i) (high_part (with_byte j b (word / 2 ^ 8)) word)
    ∙ byte_of-with_other i j b (word / 2 ^ 8) (λ e. ne (ap suc e))

-- The byte written is read back, and every other byte stays.
pub read_byte-put_byte : (a b : ℕ) (mem : ℕ → ℕ → ℕ) → read_byte a (put_byte a b mem) ≡ b % 2 ^ 8
unfolding read_byte put_byte
read_byte-put_byte a b mem =
    ground (arith, byte_of-with_byte (a % 8) b (mem (a / page_size) (a % page_size / 8)))

pub read_byte-put_other :
    (a c b : ℕ) (mem : ℕ → ℕ → ℕ) → a ≢ c → read_byte a (put_byte c b mem) ≡ read_byte a mem
unfolding read_byte put_byte
read_byte-put_other a c b mem ne = elim (Bool-cases (c / page_size == a / page_size)) [
  | inr frame ↦ rw frame refl
  | inl frame ↦ elim (Bool-cases (c % page_size / 8 == a % page_size / 8)) [
    | inr word ↦
        let f : c / page_size ≡ a / page_size = (==_iff _ _).0 frame in
        rw (frame, word) (ap (λ g. byte_of (a % 8) (mem g (a % page_size / 8))) f)
    | inl word ↦
        let f : c / page_size ≡ a / page_size = (==_iff _ _).0 frame in
        let w : c % page_size / 8 ≡ a % page_size / 8 = (==_iff _ _).0 word in
        rw (frame, word, f, w)
          (byte_of-with_other (a % 8) (c % 8) b (mem (a / page_size) (a % page_size / 8))
            (λ e. ne (omega arith)))
  ]
]
