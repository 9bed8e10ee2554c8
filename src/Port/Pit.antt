-- ===== src/Port/Pit.antt =====
-- The timer, kernel/pit.c.
use myos_git.Prelude.{ℕ, ◌/◌, ◌^◌, bit_and}
use myos_git.Port.{Machine, outb}

abbrev pub hz : ℕ
hz = 1

abbrev pub latch : ℕ
latch = 1193182 / hz

unfoldable pub init_pit : Machine → Machine
init_pit m =
    outb 0x40 (bit_and (latch / 2 ^ 8) 0xff) (outb 0x40 (bit_and latch 0xff) (outb 0x43 0x34 m))
