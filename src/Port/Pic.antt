-- ===== src/Port/Pic.antt =====
-- The two interrupt controllers, kernel/pic.c.
pub mod Masks
use myos_git.Prelude.{
  ℕ, zero, suc, ◌+◌, ◌-◌, ◌%◌, ◌^◌, ◌<◌, ◌≤◌, ◌≡◌, ◌≢◌, refl, bit_and, bit_or, leb, ltb,
  if◌then◌else◌, arith, ◌∷◌, ap, ◌∙◌,
}
use myos_git.Prelude.Bits.{
  bit, bit-lt, bit-bit_and, bit-bit_or, bit-mask_ne, bit-mask_self, bit-power_ne, bit-power_self,
}
use myos_git.Port.{Device, Machine, Event, wrote, polled, outb, read_port}

abbrev pub master_pic_cmd : ℕ
master_pic_cmd = 0x20

abbrev pub master_pic_data : ℕ
master_pic_data = 0x21

abbrev pub slave_pic_cmd : ℕ
slave_pic_cmd = 0xa0

abbrev pub slave_pic_data : ℕ
slave_pic_data = 0xa1

pub send_eoi : ℕ → Machine → Machine
send_eoi irq m = outb master_pic_cmd 0x20 (if leb 8 irq then outb slave_pic_cmd 0x20 m else m)

-- The state after the two reads that `clear_imr` and `set_imr` begin with.
abbrev pub both_read : Machine → Machine
both_read m = read_port slave_pic_data (read_port master_pic_data m)

-- `(unsigned char) ~(1 << k)` and `(unsigned char) (1 << k)`.
abbrev pub mask_out : ℕ → ℕ
mask_out k = 255 - 2 ^ k % 2 ^ 8

abbrev pub mask_in : ℕ → ℕ
mask_in k = 2 ^ k % 2 ^ 8

pub clear_imr : Device → ℕ → Machine → Machine
clear_imr d irq m =
    let master_imr = d.byte m.log master_pic_data in
    let slave_imr = d.byte (polled master_pic_data ∷ m.log) slave_pic_data in
    if ltb irq 8
    then outb master_pic_data (bit_and master_imr (mask_out irq)) (both_read m)
    else outb slave_pic_data (bit_and slave_imr (mask_out (irq - 8))) (both_read m)

pub set_imr : Device → ℕ → Machine → Machine
set_imr d irq m =
    let master_imr = d.byte m.log master_pic_data in
    let slave_imr = d.byte (polled master_pic_data ∷ m.log) slave_pic_data in
    if ltb irq 8
    then outb master_pic_data (bit_or master_imr (mask_in irq)) (both_read m)
    else outb slave_pic_data (bit_or slave_imr (mask_in (irq - 8))) (both_read m)

-- The commands of `init_pic` before it opens three lines.
program_pic : Machine → Machine
program_pic m =
    let masked = outb slave_pic_data 0xff (outb master_pic_data 0xff m) in
    let icw1 = outb slave_pic_cmd 0x11 (outb master_pic_cmd 0x11 masked) in
    let icw2 = outb slave_pic_data 0x28 (outb master_pic_data 0x20 icw1) in
    let icw3 = outb slave_pic_data 0x2 (outb master_pic_data 0x4 icw2) in
    let icw4 = outb slave_pic_data 0x1 (outb master_pic_data 0x3 icw3) in
    let ocw3_master = outb master_pic_cmd 0x0a (outb master_pic_cmd 0x68 icw4) in
    let ocw3_slave = outb slave_pic_cmd 0x0a (outb slave_pic_cmd 0x68 ocw3_master) in
    outb slave_pic_data 0xff (outb master_pic_data 0xff ocw3_slave)

pub init_pic : Device → Machine → Machine
unfolding program_pic clear_imr
init_pic d m = clear_imr d 0 (clear_imr d 1 (clear_imr d 2 (program_pic m)))
