-- ===== src/Console/Keyboard.antt =====
-- The keyboard of kernel/console.c: the ring buffer, the key map and the interrupt handler.
pub mod Fifo
pub mod Handler
use myos_git.Prelude.{
  ℕ, zero, suc, ◌+◌, ◌-◌, ◌%◌, Bool, true, false, Option, none, some, List, [], ◌∷◌, ◌&&◌, ltb,
  ◌==◌, if◌then◌else◌, update, range, bit_and,
}
use myos_git.Klib.{Bytes}
use myos_git.Console.Screen.{Screen, myputchar}

abbrev pub kbbufsize : ℕ
kbbufsize = 1024

-- `kbs`.
pub record Kbs : Type 0 where
  pub buf : Bytes
  pub rpos : ℕ
  pub wpos : ℕ

pub init_kbdata : Kbs → Kbs
init_kbdata k = record k { rpos = 0; wpos = 0 }

-- None is the -1 of an empty buffer.
pub get_kbdata : Kbs → Option ℕ × Kbs
get_kbdata k =
    if k.rpos == k.wpos
    then (none, k)
    else (some (k.buf k.rpos), record k { rpos = (k.rpos + 1) % kbbufsize })

pub add_kbdata : ℕ → Kbs → Kbs
add_kbdata data_byte k = record k {
  buf = update k.buf k.wpos data_byte;
  wpos = (k.wpos + 1) % kbbufsize;
}

-- An array's element; 0 behind its end.
entry : List ℕ → ℕ → ℕ
entry [] i = 0
entry (x ∷ xs) zero = x
entry (x ∷ xs) (suc i) = entry xs i

-- The characters from ' ' to '~' in their order.
abbrev ascii_map : List ℕ
ascii_map = range 32 95

abbrev plain_map : List ℕ
plain_map =
    0x00 ∷ 0x1b ∷ 0x31 ∷ 0x32 ∷ 0x33 ∷ 0x34 ∷ 0x35 ∷ 0x36 ∷ 0x37 ∷ 0x38 ∷ 0x39 ∷ 0x30 ∷ 0x2d ∷ 0x3d
    ∷ 0x7f ∷ 0x09 ∷ 0x71 ∷ 0x77 ∷ 0x65 ∷ 0x72 ∷ 0x74 ∷ 0x79 ∷ 0x75 ∷ 0x69 ∷ 0x6f ∷ 0x70 ∷ 0x5b
    ∷ 0x5d ∷ 0x0a ∷ 0x02 ∷ 0x61 ∷ 0x73 ∷ 0x64 ∷ 0x66 ∷ 0x67 ∷ 0x68 ∷ 0x6a ∷ 0x6b ∷ 0x6c ∷ 0x3b
    ∷ 0x27 ∷ 0x60 ∷ 0x00 ∷ 0x5c ∷ 0x7a ∷ 0x78 ∷ 0x63 ∷ 0x76 ∷ 0x62 ∷ 0x6e ∷ 0x6d ∷ 0x2c ∷ 0x2e
    ∷ 0x2f ∷ 0x00 ∷ 0x0c ∷ 0x03 ∷ 0x20 ∷ 0x07 ∷ 0x00 ∷ 0x01 ∷ 0x02 ∷ 0x03 ∷ 0x04 ∷ 0x05 ∷ 0x06
    ∷ 0x07 ∷ 0x08 ∷ 0x09 ∷ 0x08 ∷ 0x09 ∷ 0x07 ∷ 0x08 ∷ 0x09 ∷ 0x0b ∷ 0x04 ∷ 0x05 ∷ 0x06 ∷ 0x0a
    ∷ 0x01 ∷ 0x02 ∷ 0x03 ∷ 0x00 ∷ 0x10 ∷ 0x06 ∷ 0x00 ∷ 0x3c ∷ 0x0a ∷ 0x0b ∷ 0x00 ∷ 0x00 ∷ 0x00
    ∷ 0x00 ∷ 0x00 ∷ 0x00 ∷ 0x00 ∷ 0x0e ∷ 0x02 ∷ 0x0d ∷ 0x1c ∷ 0x01 ∷ 0x05 ∷ 0x14 ∷ 0x03 ∷ 0x18
    ∷ 0x01 ∷ 0x02 ∷ 0x17 ∷ 0x00 ∷ 0x19 ∷ 0x15 ∷ 0x16 ∷ 0x1a ∷ 0x0c ∷ 0x0d ∷ 0x1b ∷ 0x1c ∷ 0x10
    ∷ 0x11 ∷ 0x1d ∷ 0x00 ∷ 0x00 ∷ 0x00 ∷ 0x00 ∷ 0x00 ∷ 0x00 ∷ 0x00 ∷ 0x00 ∷ []

-- The keyboard's buffer and the screen that echoes it.
pub record Terminal : Type 0 where
  pub kbs : Kbs
  pub screen : Screen

-- `handle_scancode` behind the look-up of the key's code `i`.
press : ℕ → Terminal → Terminal
press i t =
    let c = entry ascii_map (i - 32) in
    if ltb 31 i && ltb i 127
    then record { kbs = add_kbdata c t.kbs; screen = myputchar c t.screen }
    else record t { kbs = add_kbdata i t.kbs }

pub handle_scancode : ℕ → Terminal → Terminal
unfolding press entry
handle_scancode scancode t = press (entry plain_map scancode) t

-- What one round of `kbd_handler` reads: the status port, and the data port if a byte is there.
pub record Reading : Type 0 where
  pub status : ℕ
  pub scancode : ℕ

-- The body of the loop.
pub take_reading : Reading → Terminal → Terminal
take_reading r t =
    if bit_and r.status 0x20 == 0
    then (if ltb r.scancode 0x7f then handle_scancode r.scancode t else t)
    else t

-- The loop ends at a status without the bit `KBD_STAT_OUTB`; so it does where the readings end.
pub kbd_handler : List Reading → Terminal → Terminal
unfolding take_reading
kbd_handler [] t = t
kbd_handler (r ∷ rs) t =
    let rest = kbd_handler rs (take_reading r t) in if bit_and r.status 1 == 0 then t else rest
