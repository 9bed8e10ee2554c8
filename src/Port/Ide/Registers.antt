-- ===== src/Port/Ide/Registers.antt =====
-- The registers of a disk as the events on its ports leave them, and the polls of `wait` of kernel/ide.c.
use myos_git.Prelude.{
  ℕ, zero, suc, ◌+◌, ◌*◌, ◌/◌, ◌%◌, ◌^◌, ◌<◌, ◌≤◌, ◌≡◌, refl, ◌∙◌, List, [], ◌∷◌, some, bit_and,
  bit_or, ◌==◌, if◌then◌else◌, arith, Bool-cases, inl, inr, false,
}
use myos_git.Prelude.Bits.{bit, bit_and_mask, bit_and-power, bit_or_fields}
use myos_git.Port.{Device, Machine, Event, wrote, polled, got, sent, read_port, wait, busy}

-- The last byte written to a register, 0 before any.
unfoldable pub last_byte : ℕ → List Event → ℕ
last_byte port [] = 0
last_byte port (wrote p v ∷ log) = if p == port then v else last_byte port log
last_byte port (polled p ∷ log) = last_byte port log
last_byte port (got p ∷ log) = last_byte port log
last_byte port (sent p b ∷ log) = last_byte port log

-- The blocks fetched since the last command.
unfoldable pub fetched : List Event → ℕ
fetched [] = 0
fetched (wrote p v ∷ log) = if p == 0x1f7 then 0 else fetched log
fetched (polled p ∷ log) = fetched log
fetched (got p ∷ log) = fetched log + 1
fetched (sent p b ∷ log) = fetched log

-- The registers as an ATA disk reads them: 28 bits of address, and 0 for 256 sectors.
unfoldable pub sector_address : List Event → ℕ
unfolding last_byte
sector_address log =
    last_byte 0x1f3 log
    + last_byte 0x1f4 log * 2 ^ 8
    + last_byte 0x1f5 log * 2 ^ 16
    + last_byte 0x1f6 log % 2 ^ 4 * 2 ^ 24

unfoldable pub sector_count : List Event → ℕ
unfolding last_byte
sector_count log = if last_byte 0x1f2 log == 0 then 256 else last_byte 0x1f2 log

abbrev pub after_polls : ℕ → List Event → List Event
after_polls zero log = log
after_polls (suc k) log = after_polls k (polled 0x1f7 ∷ log)

-- The status register's bit BSY, the highest, is clear in a byte.
abbrev pub NotBusy : ℕ → Type 0
NotBusy status = status / 2 ^ 7 % 2 ≡ 0

-- The last of the events is a poll of the status register that found BSY clear.
abbrev pub Idle : Device → List Event → Type 0
Idle d log = (rest : List Event) × (log ≡ polled 0x1f7 ∷ rest) × NotBusy (d.byte rest 0x1f7)

-- A disk with the given sectors, that answers a read command sector by sector, each one right behind a poll that
-- found BSY clear, and whose BSY is found clear within so many polls.
pub record IsDisk (d : Device) (sectors : ℕ → ℕ → ℕ) (polls : ℕ) : Type 0 where
  pub reads :
      (log : List Event) (i : ℕ)
      → last_byte 0x1f7 log ≡ 0x20
      → fetched log < sector_count log
      → i < 512
      → NotBusy (d.byte log 0x1f7)
      → d.block (polled 0x1f7 ∷ log) 0x1f0 i ≡ sectors (sector_address log + fetched log) i
  pub ready :
      (log : List Event) → (k : ℕ) × (k < polls) × NotBusy (d.byte (after_polls k log) 0x1f7)

-- A log that reads on after another: no register and no count of blocks differs.
pub record Same (log log' : List Event) : Type 0 where
  pub bytes : (port : ℕ) → last_byte port log' ≡ last_byte port log
  pub blocks : fetched log' ≡ fetched log

pub polled-Same : (p : ℕ) (log : List Event) → Same log (polled p ∷ log)
unfolding last_byte fetched
polled-Same p log = record { bytes = λ port. refl; blocks = refl }

bit_seventh : (status : ℕ) → bit 7 status ≡ status / 2 ^ 7 % 2
unfolding bit
bit_seventh status = omega arith

-- The test of `wait` is that of BSY.
busy-NotBusy : (status : ℕ) → busy status ≡ false → NotBusy status
unfolding busy bit
busy-NotBusy status free = ground (arith, bit_and-power 7 status, bit_seventh status)

NotBusy-busy : (status : ℕ) → NotBusy status → busy status ≡ false
unfolding busy bit
NotBusy-busy status clear = ground (arith, bit_and-power 7 status, bit_seventh status)

-- The last poll of a `wait` that ends: it found BSY clear, and no register was written before it.
pub record Waited (d : Device) (n : ℕ) (m : Machine) : Type 0 where
  pub before : List Event
  pub same : Same m.log before
  pub clear : NotBusy (d.byte before 0x1f7)
  pub ended : wait d n m ≡ some (record m { log = polled 0x1f7 ∷ before })

wait-once : (d : Device) (n : ℕ) (m : Machine) → NotBusy (d.byte m.log 0x1f7) → Waited d (suc n) m
unfolding wait
wait-once d n m free = record {
  before = m.log;
  same = record { bytes = λ p. refl; blocks = refl };
  clear = free;
  ended = rw (NotBusy-busy _ free) refl;
}

-- `wait` ends where BSY is clear after fewer polls than it may make.
pub wait-Waited :
    (d : Device) (n k : ℕ) (m : Machine)
    → k < n
    → NotBusy (d.byte (after_polls k m.log) 0x1f7)
    → Waited d n m
unfolding wait last_byte fetched
wait-Waited d zero k m h free = absurd (omega arith)
wait-Waited d (suc n) zero m h free = wait-once d n m free
wait-Waited d (suc n) (suc k) m h free = elim (Bool-cases (busy (d.byte m.log 0x1f7))) [
  | inl still ↦
      let w = wait-Waited d n k (read_port 0x1f7 m) (omega arith) free in
      record {
        before = w.before;
        same = record { bytes = w.same.bytes; blocks = w.same.blocks };
        clear = w.clear;
        ended = rw still w.ended;
      }
  | inr done ↦ wait-once d n m (busy-NotBusy _ done)
]

-- A log after a read command for `count` sectors from `lba` on, `k` of which were fetched.
pub record IsReading (lba count k : ℕ) (log : List Event) : Type 0 where
  pub command : last_byte 0x1f7 log ≡ 0x20
  pub address : sector_address log ≡ lba
  pub total : sector_count log ≡ count
  pub so_far : fetched log ≡ k

pub IsReading-Same :
    {lba count k : ℕ} {log log' : List Event}
    → IsReading lba count k log
    → Same log log'
    → IsReading lba count k log'
unfolding sector_address sector_count
IsReading-Same r s = record {
  command = s.bytes 0x1f7 ∙ r.command;
  address = rw (s.bytes 0x1f3, s.bytes 0x1f4, s.bytes 0x1f5, s.bytes 0x1f6) r.address;
  total = rw (s.bytes 0x1f2) r.total;
  so_far = s.blocks ∙ r.so_far;
}

-- The drive's bits and the top four of the address.
drive_register :
    (drive x : ℕ)
    → drive % 2 ^ 4 ≡ 0
    → drive < 2 ^ 8
    → bit_or drive (bit_and x 0x0f) % 2 ^ 8 % 2 ^ 4 ≡ x % 2 ^ 4
drive_register drive x d h =
    let e : drive ≡ drive / 2 ^ 4 * 2 ^ 4 = omega arith in
    let f : bit_and x 0x0f ≡ x % 2 ^ 4 = bit_and_mask 4 x in
    rw f (rw e (omega (arith, bit_or_fields 4 (drive / 2 ^ 4) (x % 2 ^ 4) (omega arith))))

-- The registers that a read command sets, in whatever order.
pub registers-IsReading :
    (drive lba count : ℕ) (log : List Event)
    → last_byte 0x1f7 log ≡ 0x20
    → last_byte 0x1f2 log ≡ count % 2 ^ 8
    → last_byte 0x1f3 log ≡ lba % 2 ^ 8
    → last_byte 0x1f4 log ≡ lba / 2 ^ 8 % 2 ^ 8
    → last_byte 0x1f5 log ≡ lba / 2 ^ 16 % 2 ^ 8
    → last_byte 0x1f6 log ≡ bit_or drive (bit_and (lba / 2 ^ 24) 0x0f) % 2 ^ 8
    → fetched log ≡ 0
    → drive % 2 ^ 4 ≡ 0
    → drive < 2 ^ 8
    → lba < 2 ^ 28
    → 0 < count
    → count ≤ 256
    → IsReading lba count 0 log
unfolding sector_address sector_count
registers-IsReading drive lba count log r7 r2 r3 r4 r5 r6 none_yet d h hl c hc = record {
  command = r7;
  address = rw (r3, r4, r5, r6) (omega (arith, drive_register drive (lba / 2 ^ 24) d h));
  total = rw r2 (ground arith);
  so_far = none_yet;
}
