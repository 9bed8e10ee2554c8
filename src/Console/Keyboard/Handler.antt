-- ===== src/Console/Keyboard/Handler.antt =====
-- What a key press puts into the buffer and on the screen.
use myos_git.Prelude.{
  ℕ, zero, suc, ◌+◌, ◌-◌, ◌<◌, ◌≡◌, refl, ◌∙◌, inl, inr, Bool-cases, Bool, List, [], ◌∷◌, arith,
  ◌&&◌, ltb, ◌==◌, if◌then◌else◌, range, bit_and,
}
use myos_git.Console.Keyboard.{
  Terminal, Reading, add_kbdata, entry, plain_map, press, handle_scancode, kbd_handler,
}
use myos_git.Console.Screen.{myputchar}
use myos_git.Console.Screen.Cells.{IsOnScreen, myputchar-IsOnScreen}
use myos_git.Console.Keyboard.Fifo.{IsRing, add_kbdata-IsRing}

entry-range : (lo n i : ℕ) → i < n → entry (range lo n) i ≡ lo + i
unfolding entry
entry-range lo zero i h = absurd (omega arith)
entry-range lo (suc n) zero h = omega arith
entry-range lo (suc n) (suc i) h = omega (arith, entry-range (lo + 1) n i (omega arith))

-- The code of a key.
pub key_code : ℕ → ℕ
key_code scancode = entry plain_map scancode

abbrev pub is_printable : ℕ → Bool
is_printable c = ltb 31 c && ltb c 127

-- A code goes into the buffer as it is, and a printable one is echoed on the screen.
abbrev pub typed : ℕ → Terminal → Terminal
typed i t = record {
  kbs = add_kbdata i t.kbs;
  screen = if is_printable i then myputchar i t.screen else t.screen;
}

press-eq-typed : (i : ℕ) (t : Terminal) → press i t ≡ typed i t
unfolding press
press-eq-typed i t = elim (Bool-cases (is_printable i)) [
  | inl printable ↦
      let e : entry (range 32 95) (i - 32) ≡ i =
        entry-range 32 95 (i - 32) (ground arith) ∙ ground arith in
      rw (printable, e)
  | inr other ↦ rw other
]

pub handle_scancode-eq-typed :
    (scancode : ℕ) (t : Terminal) → handle_scancode scancode t ≡ typed (key_code scancode) t
unfolding handle_scancode key_code
handle_scancode-eq-typed scancode t = press-eq-typed (entry plain_map scancode) t

-- The readings that `kbd_handler` acts on: those before the first with an empty output buffer, not
-- from the auxiliary device, with a scan code below 0x7f (a key press other than the last).
pub key_codes : List Reading → List ℕ
key_codes [] = []
key_codes (r ∷ rs) =
    let rest = key_codes rs in
    if bit_and r.status 1 == 0
    then []
    else if bit_and r.status 0x20 == 0 && ltb r.scancode 0x7f
    then key_code r.scancode ∷ rest
    else rest

pub type_all : List ℕ → Terminal → Terminal
type_all [] t = t
type_all (i ∷ is) t = type_all is (typed i t)

-- `kbd_handler` types exactly the codes of the keys that were pressed, in their order.
pub kbd_handler-eq-type_all :
    (rs : List Reading) (t : Terminal) → kbd_handler rs t ≡ type_all (key_codes rs) t
unfolding kbd_handler type_all key_codes
kbd_handler-eq-type_all [] t = refl
kbd_handler-eq-type_all (r ∷ rs) t = ground (
  arith,
  handle_scancode-eq-typed r.scancode t,
  kbd_handler-eq-type_all rs t,
  kbd_handler-eq-type_all rs (typed (key_code r.scancode) t),
)

pub record IsTerminal (t : Terminal) : Type 0 where
  pub ring : IsRing t.kbs
  pub on_screen : IsOnScreen t.screen

typed-IsTerminal : (i : ℕ) (t : Terminal) → IsTerminal t → IsTerminal (typed i t)
typed-IsTerminal i t h = record {
  ring = add_kbdata-IsRing t.kbs i h.ring;
  on_screen = elim (Bool-cases (is_printable i)) [
    | inl printable ↦ rw printable (myputchar-IsOnScreen i t.screen h.on_screen)
    | inr other ↦ rw other h.on_screen
  ];
}

type_all-IsTerminal : (is : List ℕ) (t : Terminal) → IsTerminal t → IsTerminal (type_all is t)
unfolding type_all
type_all-IsTerminal [] t h = h
type_all-IsTerminal (i ∷ is) t h = type_all-IsTerminal is (typed i t) (typed-IsTerminal i t h)

-- Whatever the controller delivers, the handler keeps the buffer's positions and the cursor in range.
pub kbd_handler-IsTerminal :
    (rs : List Reading) (t : Terminal) → IsTerminal t → IsTerminal (kbd_handler rs t)
kbd_handler-IsTerminal rs t h =
    rw (kbd_handler-eq-type_all rs t) (type_all-IsTerminal (key_codes rs) t h)
