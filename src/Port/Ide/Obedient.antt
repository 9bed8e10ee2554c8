-- ===== src/Port/Ide/Obedient.antt =====
-- A disk that is busy after each command and each sector for one poll, as test data for those who read disks.
use myos_git.Prelude.{ℕ, ◌+◌, refl, List, [], ◌∷◌, arith, ◌==◌, if◌then◌else◌}
use myos_git.Port.{Device, Event, wrote, polled, got, sent}
use myos_git.Port.Ide.Registers.{IsDisk, sector_address, fetched, last_byte}

-- BSY until the status was polled once, and then the bit that says that data is there.
unfoldable pub status : List Event → ℕ
status [] = 0x80
status (wrote p v ∷ log) = 0x80
status (polled p ∷ log) = if p == 0x1f7 then 0x58 else status log
status (got p ∷ log) = 0xd0
status (sent p b ∷ log) = 0xd0

-- While it is busy the data are all 255.
abbrev pub obedient : (ℕ → ℕ → ℕ) → Device
unfolding status
obedient sectors = record {
  byte = λ log port. status log;
  block = λ log port i.
      if status log == 0x58 then sectors (sector_address log + fetched log) i else 255;
}

pub obedient-IsDisk : (sectors : ℕ → ℕ → ℕ) → IsDisk (obedient sectors) sectors 2
unfolding status fetched last_byte sector_address
obedient-IsDisk sectors = record {
  reads = λ log i command more inside clear. refl;
  ready = λ log. (1, omega arith, refl);
}
