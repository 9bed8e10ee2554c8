-- ===== src/Smp/Started.antt =====
-- Which interrupts kernel/lapic.c sends to start the other processors, as the local APIC reads its registers.
use myos_git.Prelude.{
  ℕ, zero, suc, ◌+◌, ◌*◌, ◌/◌, ◌%◌, ◌^◌, ◌≤◌, ◌<◌, ◌≡◌, refl, ap, ◌∙◌, inl, inr, List, [], ◌∷◌,
  ◌==◌, if◌then◌else◌, arith, range, Bool-cases,
}
use myos_git.Smp.{Cores, Access, store, load, wake, wake_from, startup_smp}

-- An interrupt to another processor, by the fields of the interrupt command register: 0x300 has the vector,
-- the delivery mode, the level and the trigger, and 0x310 the destination.
pub record Ipi : Type 0 where
  pub destination : ℕ
  pub vector : ℕ
  pub delivery : ℕ
  pub asserted : ℕ
  pub level_triggered : ℕ

abbrev pub ipi_of : (destination command : ℕ) → Ipi
ipi_of destination command = record {
  destination = destination;
  vector = command % 2 ^ 8;
  delivery = command / 2 ^ 8 % 2 ^ 3;
  asserted = command / 2 ^ 14 % 2;
  level_triggered = command / 2 ^ 15 % 2;
}

-- The destination that the register has, 0 before any.
unfoldable pub destination_of : List Access → ℕ
destination_of [] = 0
destination_of (store r v ∷ log) = if r == 0x310 then v / 2 ^ 24 % 2 ^ 8 else destination_of log
destination_of (load r ∷ log) = destination_of log

-- A store to 0x300 sends an interrupt; the last one first.
unfoldable pub sent_by : List Access → List Ipi
unfolding destination_of
sent_by [] = []
sent_by (store r v ∷ log) =
    if r == 0x300 then ipi_of (destination_of log) v ∷ sent_by log else sent_by log
sent_by (load r ∷ log) = sent_by log

-- Delivery mode 5 is INIT and 6 is STARTUP, whose vector is the page where the processor begins.
abbrev pub init_of : (destination asserted : ℕ) → Ipi
init_of destination asserted = record {
  destination = destination;
  vector = 0;
  delivery = 5;
  asserted = asserted;
  level_triggered = 1;
}

abbrev pub startup_of : ℕ → Ipi
startup_of destination = record {
  destination = destination;
  vector = 8;
  delivery = 6;
  asserted = 0;
  level_triggered = 0;
}

-- INIT asserted and taken back, and STARTUP twice.
abbrev pub started : ℕ → List Ipi → List Ipi
started i sent = startup_of i ∷ startup_of i ∷ init_of i 0 ∷ init_of i 1 ∷ sent

-- The places of the list, but for those with the number of the processor that runs.
abbrev pub woken : ℕ → (ℕ → ℕ) → List ℕ → List Ipi → List Ipi
woken bspid lapic_ids [] sent = sent
woken bspid lapic_ids (i ∷ l) sent =
    woken bspid lapic_ids l (if lapic_ids i == bspid then sent else started i sent)

wake-started :
    (i : ℕ) (log : List Access)
    → i < 256
    → sent_by (wake (i * 2 ^ 24 % 2 ^ 32) log) ≡ started i (sent_by log)
unfolding wake sent_by destination_of
wake-started i log small =
    let e : i * 2 ^ 24 % 2 ^ 32 / 2 ^ 24 % 2 ^ 8 ≡ i = omega arith in rw e refl

round_lem :
    (i bspid : ℕ) (s : Cores) (log : List Access)
    → i < 256
    → sent_by (if s.lapic_ids i == bspid then log else wake (i * 2 ^ 24 % 2 ^ 32) log)
      ≡ (if s.lapic_ids i == bspid then sent_by log else started i (sent_by log))
round_lem i bspid s log small = elim (Bool-cases (s.lapic_ids i == bspid)) [
  | inl self ↦ rw self refl
  | inr other ↦ rw other (wake-started i log small)
]

wake_from-woken :
    (n i bspid : ℕ) (s : Cores) (log : List Access)
    → i + n ≤ 256
    → sent_by (wake_from bspid n i s log) ≡ woken bspid s.lapic_ids (range i n) (sent_by log)
unfolding wake_from
wake_from-woken zero i bspid s log small = refl
wake_from-woken (suc n) i bspid s log small =
    wake_from-woken n (i + 1) bspid s
      (if s.lapic_ids i == bspid then log else wake (i * 2 ^ 24 % 2 ^ 32) log) (omega arith)
    ∙ ap (woken bspid s.lapic_ids (range (i + 1) n)) (round_lem i bspid s log (omega arith))

-- For at most 256 processors, the interrupts that the APIC sends during `startup_smp` are, in the order of
-- the list and for each place whose processor is not the one that runs: INIT asserted, INIT taken back, and
-- twice STARTUP at the page 8, all to the place in the list as the destination and not to the identifier
-- that the list has there.
pub startup_smp-woken :
    (bspid : ℕ) (s : Cores) (log : List Access)
    → s.numcores ≤ 256
    → sent_by (startup_smp bspid s log) ≡ woken bspid s.lapic_ids (range 0 s.numcores) (sent_by log)
unfolding startup_smp
startup_smp-woken bspid s log small = wake_from-woken s.numcores 0 bspid s log (omega arith)
