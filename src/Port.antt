-- ===== src/Port.antt =====
-- Port input and output, include/kern/arch.h. What a device answers is a parameter: it may depend on all
-- that the kernel has sent and asked before. Above it kernel/pic.c, kernel/pit.c and kernel/ide.c.
pub mod Pic
pub mod Pit
pub mod Ide
mod Tests
use myos_git.Prelude.{
  ℕ, zero, suc, ◌+◌, ◌*◌, ◌%◌, ◌^◌, Bool, not, Option, none, some, List, ◌∷◌, bit_and, ◌==◌, leb,
  ltb, ◌&&◌, ◌-◌, if◌then◌else◌,
}

-- One instruction: `outb`, `inb`, `insw` of 256 words and `outsw` of 256 words, as its bytes.
pub data Event : Type 0 where
  wrote : ℕ → ℕ → Event
  polled : ℕ → Event
  got : ℕ → Event
  sent : ℕ → (ℕ → ℕ) → Event

-- The answers of the hardware, to `inb` and to `insw` byte by byte, after the events so far, the last
-- one first.
pub record Device : Type 0 where
  pub byte : List Event → ℕ → ℕ
  pub block : List Event → ℕ → ℕ → ℕ

-- The events and the memory, byte by byte.
pub record Machine : Type 0 where
  pub log : List Event
  pub mem : ℕ → ℕ

abbrev pub outb : ℕ → ℕ → Machine → Machine
outb port value m = record m { log = wrote port (value % 2 ^ 8) ∷ m.log }

abbrev pub read_port : ℕ → Machine → Machine
read_port port m = record m { log = polled port ∷ m.log }

-- The bytes of a block that `insw` puts at `dest`.
abbrev pub put_block : (ℕ → ℕ) → ℕ → (ℕ → ℕ) → ℕ → ℕ
put_block block dest mem a = if leb dest a && ltb a (dest + 512) then block (a - dest) else mem a

abbrev pub insw : Device → ℕ → ℕ → Machine → Machine
insw d port dest m = record m {
  log = got port ∷ m.log;
  mem = put_block (d.block m.log port) dest m.mem;
}

abbrev pub outsw : ℕ → ℕ → Machine → Machine
outsw port source m = record m { log = sent port (λ i. m.mem (source + i)) ∷ m.log }

-- `(inb(0x1f7) & 0x80) != 0`.
unfoldable pub busy : ℕ → Bool
busy status = not (bit_and status 0x80 == 0)

-- `wait`, with as many polls as it is given; none where the disk is busy at all of them.
unfoldable pub wait : Device → ℕ → Machine → Option Machine
wait d zero m = none
wait d (suc n) m =
    let rest = wait d n (read_port 0x1f7 m) in
    if busy (d.byte m.log 0x1f7) then rest else some (read_port 0x1f7 m)

infixl 5 ◌>>=◌
abbrev pub ◌>>=◌ : Option Machine → (Machine → Option Machine) → Option Machine
none >>= k = none
some m >>= k = k m
