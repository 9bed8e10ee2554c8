-- ===== src/Port/Pic/Masks.antt =====
-- What kernel/pic.c does to the masks of the two controllers.
use myos_git.Prelude.{
  ℕ, zero, suc, ◌+◌, ◌-◌, ◌%◌, ◌^◌, ◌<◌, ◌≡◌, ◌≢◌, refl, ◌∙◌, List, [], ◌∷◌, bit_and, bit_or, ltb,
  ◌==◌, if◌then◌else◌, arith, Bool-cases, inl, inr, ltb→lt, true, false,
}
use myos_git.Prelude.Bits.{
  bit, bit-lt, bit-mod, bit-bit_and, bit-bit_or, bit-mask_ne, bit-mask_self, bit-power_ne,
  bit-power_self,
}
use myos_git.Port.{Device, Machine, Event, wrote, polled, got, sent}
use myos_git.Port.Pic.{
  clear_imr, set_imr, init_pic, master_pic_data, master_pic_cmd, slave_pic_data, slave_pic_cmd,
  mask_in, mask_out,
}

-- `new` has `b` at the bit `k` and is `old` at the other seven.
pub record IsChanged (k b old new : ℕ) : Type 0 where
  pub target : bit k new ≡ b
  pub kept : (j : ℕ) → j < 8 → j ≢ k → bit j new ≡ bit j old

-- The data port of the controller of a line, and what a read of it answers at the second read or, for the
-- first controller, the first.
abbrev pub data_port : ℕ → ℕ
data_port irq = if ltb irq 8 then master_pic_data else slave_pic_data

abbrev pub mask_read : Device → ℕ → Machine → ℕ
mask_read d irq m =
    if ltb irq 8
    then d.byte m.log master_pic_data
    else d.byte (polled master_pic_data ∷ m.log) slave_pic_data

-- The machine reads both masks and writes one, whose bit of the line becomes `b`.
pub record IsMasked (d : Device) (irq b : ℕ) (m m' : Machine) : Type 0 where
  pub value : ℕ
  pub events :
      m'.log ≡ wrote (data_port irq) value ∷ polled slave_pic_data ∷ polled master_pic_data ∷ m.log
  pub changed : IsChanged (irq % 8) b (mask_read d irq m) value
  pub memory : m'.mem ≡ m.mem

power-lt : (k : ℕ) → k < 8 → 2 ^ k % 2 ^ 8 ≡ 2 ^ k
power-lt zero h = refl
power-lt (suc zero) h = refl
power-lt (suc (suc zero)) h = refl
power-lt (suc (suc (suc zero))) h = refl
power-lt (suc (suc (suc (suc zero)))) h = refl
power-lt (suc (suc (suc (suc (suc zero))))) h = refl
power-lt (suc (suc (suc (suc (suc (suc zero)))))) h = refl
power-lt (suc (suc (suc (suc (suc (suc (suc zero))))))) h = refl
power-lt (suc (suc (suc (suc (suc (suc (suc (suc k)))))))) h = absurd (omega arith)

and-IsChanged : (k a : ℕ) → k < 8 → IsChanged k 0 a (bit_and a (mask_out k) % 2 ^ 8)
and-IsChanged k a h = record {
  target =
      bit-mod 8 k _ h
      ∙ bit-bit_and k a (mask_out k)
      ∙ rw (power-lt k h) (omega (arith, bit-mask_self 8 k h));
  kept = λ j hj ne.
      bit-mod 8 j _ hj
      ∙ bit-bit_and j a (mask_out k)
      ∙ rw (power-lt k h) (omega (arith, bit-mask_ne 8 k j h hj ne, bit-lt j a));
}

or-IsChanged : (k a : ℕ) → k < 8 → IsChanged k 1 a (bit_or a (mask_in k) % 2 ^ 8)
or-IsChanged k a h = record {
  target =
      bit-mod 8 k _ h
      ∙ bit-bit_or k a (mask_in k)
      ∙ rw (power-lt k h) (omega (arith, bit-power_self k, bit-lt k a));
  kept = λ j hj ne.
      bit-mod 8 j _ hj
      ∙ bit-bit_or j a (mask_in k)
      ∙ rw (power-lt k h) (omega (arith, bit-power_ne k j ne));
}

-- Either controller's line is `irq % 8`.
line-low : (irq : ℕ) → ltb irq 8 ≡ true → irq % 8 ≡ irq
line-low irq h = omega (arith, ltb→lt irq 8 h)

line-high : (irq : ℕ) → irq < 16 → ltb irq 8 ≡ false → irq % 8 ≡ irq - 8
line-high irq h high = ground arith

module _ (d : Device) (irq : ℕ) (m : Machine) where
  -- A write of the mask that one of two changes makes of what was read.
  written : (ℕ → ℕ → ℕ) → ℕ
  written change =
      if ltb irq 8
      then change irq (mask_read d irq m) % 2 ^ 8
      else change (irq - 8) (mask_read d irq m) % 2 ^ 8

  written-IsChanged :
      (change : ℕ → ℕ → ℕ) (b : ℕ)
      → irq < 16
      → ((k a : ℕ) → k < 8 → IsChanged k b a (change k a % 2 ^ 8))
      → IsChanged (irq % 8) b (mask_read d irq m) (written change)
  unfolding written
  written-IsChanged change b h law = elim (Bool-cases (ltb irq 8)) [
    | inl low ↦ rw (low, line-low irq low) (law irq _ (ltb→lt irq 8 low))
    | inr high ↦ rw (high, line-high irq h high) (law (irq - 8) _ (omega arith))
  ]

  clear_imr-IsMasked : irq < 16 → IsMasked d irq 0 m (clear_imr d irq m)
  unfolding clear_imr written
  clear_imr-IsMasked h = record {
    value = written (λ k a. bit_and a (mask_out k));
    events = ground arith;
    changed = written-IsChanged (λ k a. bit_and a (mask_out k)) 0 h and-IsChanged;
    memory = ground arith;
  }

  set_imr-IsMasked : irq < 16 → IsMasked d irq 1 m (set_imr d irq m)
  unfolding set_imr written
  set_imr-IsMasked h = record {
    value = written (λ k a. bit_or a (mask_in k));
    events = ground arith;
    changed = written-IsChanged (λ k a. bit_or a (mask_in k)) 1 h or-IsChanged;
    memory = ground arith;
  }

-- For a line below 16, `clear_imr` opens and `set_imr` closes it: each reads both masks and writes one byte
-- to the line's controller, the mask read there with the line's bit 0 or 1 and its other seven bits kept.
pub imr-IsMasked :
    (d : Device) (irq : ℕ) (m : Machine)
    → irq < 16
    → IsMasked d irq 0 m (clear_imr d irq m) × IsMasked d irq 1 m (set_imr d irq m)
imr-IsMasked d irq m h = (clear_imr-IsMasked d irq m h, set_imr-IsMasked d irq m h)

-- A controller as its data sheet has it: how many initialisation words it still expects, and its mask.
pub record Chip : Type 0 where
  pub expected : ℕ
  pub mask : ℕ

-- A write to the command port with bit 4 set restarts the controller, and its mask is cleared.
abbrev command : ℕ → Chip → Chip
command v c = if bit 4 v == 1 then record { expected = 3; mask = 0 } else c

abbrev datum : ℕ → Chip → Chip
datum v c =
    if c.expected == 0
    then record { expected = 0; mask = v }
    else record { expected = c.expected - 1; mask = c.mask }

abbrev heard : ℕ → Event → Chip → Chip
heard port (wrote p v) c = if p == port then command v c else if p == port + 1 then datum v c else c
heard port (polled p) c = c
heard port (got p) c = c
heard port (sent p b) c = c

-- The controller with its command port at `port` and its data port after it, after the events.
pub chip_of : ℕ → List Event → Chip
unfolding bit
chip_of port [] = record { expected = 0; mask = 0 }
chip_of port (e ∷ log) = heard port e (chip_of port log)

-- The data ports answer the masks.
pub record IsControlled (d : Device) : Type 0 where
  pub master : (log : List Event) → d.byte log master_pic_data ≡ (chip_of master_pic_cmd log).mask
  pub slave : (log : List Event) → d.byte log slave_pic_data ≡ (chip_of slave_pic_cmd log).mask

-- Whatever was sent before, with controllers that answer their masks, `init_pic` leaves both initialised:
-- the first lets through its lines 0, 1 and 2 and no others, the second none.
pub init_pic-IsOpen :
    (d : Device) (m : Machine)
    → IsControlled d
    → (chip_of master_pic_cmd (init_pic d m).log ≡ record { expected = 0; mask = 0xf8 })
      × (chip_of slave_pic_cmd (init_pic d m).log ≡ record { expected = 0; mask = 0xff })
unfolding init_pic chip_of bit
init_pic-IsOpen d m c = (rw (c.master) (rw (c.master) (rw (c.master) refl)), refl)
