-- ===== src/Port/Ide/Disk.antt =====
-- What kernel/ide.c reads from a disk that obeys its registers.
use myos_git.Prelude.{
  ℕ, zero, suc, ◌+◌, ◌-◌, ◌*◌, ◌/◌, ◌%◌, ◌<◌, ◌≤◌, ◌≡◌, ◌⊎◌, refl, ◌∙◌, ap, List, ◌∷◌, Option, some,
  leb, ltb, ◌&&◌, if◌then◌else◌, arith, Bool-cases, inl, inr,
}
use myos_git.Port.{Device, Machine, Event, polled, insw}
use myos_git.Port.Ide.{drain, read_sectors}
use myos_git.Port.Ide.Registers.{
  last_byte, fetched, sector_address, sector_count, NotBusy, Idle, IsDisk, Same, polled-Same,
  Waited, wait-Waited, IsReading, IsReading-Same,
}

-- The bytes of `count` sectors from `lba` on in place of those at `dest`.
unfoldable pub placed : (ℕ → ℕ → ℕ) → ℕ → ℕ → ℕ → (ℕ → ℕ) → ℕ → ℕ
placed sectors lba count dest mem a =
    if leb dest a && ltb a (dest + 512 * count)
    then sectors (lba + (a - dest) / 512) ((a - dest) % 512)
    else mem a

pub placed-inside :
    (sectors : ℕ → ℕ → ℕ) (lba count dest : ℕ) (mem : ℕ → ℕ) (x : ℕ)
    → x < 512 * count
    → placed sectors lba count dest mem (dest + x) ≡ sectors (lba + x / 512) (x % 512)
unfolding placed
placed-inside sectors lba count dest mem x h =
    let offset : dest + x - dest ≡ x = omega arith in rw offset (ground arith)

pub placed-cases :
    (sectors : ℕ → ℕ → ℕ) (lba count dest : ℕ) (mem : ℕ → ℕ) (a : ℕ)
    → ((dest ≤ a) × (a < dest + 512 * count)) ⊎ (placed sectors lba count dest mem a ≡ mem a)
unfolding placed
placed-cases sectors lba count dest mem a =
    elim (Bool-cases (leb dest a && ltb a (dest + 512 * count))) [
      | inl inside ↦ inl (ground arith)
      | inr outside ↦ inr (rw outside refl)
    ]

-- The run ends with the disk not busy, and has put the sectors at `dest` and changed no other byte.
pub record IsFetched (d : Device) (sectors : ℕ → ℕ → ℕ) (lba count dest : ℕ) (mem : ℕ → ℕ)
    (r : Option Machine) : Type 0 where
  pub last : Machine
  pub returned : r ≡ some last
  pub bytes : (a : ℕ) → last.mem a ≡ placed sectors lba count dest mem a
  pub idle : 0 < count → Idle d last.log

module _ (d : Device) (sectors : ℕ → ℕ → ℕ) (polls : ℕ) (disk : IsDisk d sectors polls) where
  ready_wait : (m : Machine) → Waited d polls m
  ready_wait m = let (k, below, free) = disk.ready m.log in wait-Waited d polls k m below free

  -- One sector of the loop, behind a poll.
  block-put :
      (lba count k dest : ℕ) (m : Machine) (before : List Event)
      → IsReading lba count k before
      → NotBusy (d.byte before 0x1f7)
      → k < count
      → (a : ℕ)
      → (insw d 0x1f0 dest (record m { log = polled 0x1f7 ∷ before })).mem a
        ≡ placed sectors (lba + k) 1 dest m.mem a
  unfolding placed
  block-put lba count k dest m before r clear h a =
      elim (Bool-cases (leb dest a && ltb a (dest + 512))) [
        | inl inside ↦
            let below : a - dest < 512 = ground arith in
            let here : (lba + k) + (a - dest) / 512 ≡ lba + k = omega arith in
            let offset : (a - dest) % 512 ≡ a - dest = omega arith in
            rw (inside, here, offset)
              (disk.reads before (a - dest) r.command (omega (arith, r.total, r.so_far)) below clear
                ∙ rw (r.address, r.so_far) refl)
        | inr outside ↦ rw outside refl
      ]

  -- The log after one round of the loop.
  round-IsReading :
      {lba count k : ℕ} (dest : ℕ) (m : Machine) (before after : List Event)
      → IsReading lba count k before
      → Same (drain (insw d 0x1f0 dest (record m { log = polled 0x1f7 ∷ before }))).log after
      → IsReading lba count (k + 1) (polled 0x1f7 ∷ after)
  unfolding drain last_byte fetched sector_address sector_count
  round-IsReading dest m before after r same =
      IsReading-Same
        (IsReading-Same
          record {
            command = r.command;
            address = r.address;
            total = r.total;
            so_far = omega (arith, r.so_far);
          }
          same)
        (polled-Same 0x1f7 after)

  placed-next :
      (lba n dest : ℕ) (mem mem' : ℕ → ℕ) (a : ℕ)
      → mem' a ≡ placed sectors lba 1 dest mem a
      → placed sectors (lba + 1) n (dest + 512) mem' a ≡ placed sectors lba (suc n) dest mem a
  unfolding placed
  placed-next lba n dest mem mem' a e = ground (arith, e)

  next_sector : (lba k : ℕ) → lba + (k + 1) ≡ lba + k + 1
  next_sector lba k = omega arith

  -- The loop's rest from a machine whose disk is not busy or with a sector left.
  read_sectors-IsFetched :
      (n k dest lba count : ℕ) (m : Machine)
      → IsReading lba count k m.log
      → k + n ≤ count
      → Idle d m.log ⊎ (0 < n)
      → (last : Machine) × (read_sectors d polls n dest m ≡ some last)
        × ((a : ℕ) → last.mem a ≡ placed sectors (lba + k) n dest m.mem a)
        × Idle d last.log
  unfolding read_sectors placed
  read_sectors-IsFetched zero k dest lba count m r h idle =
      (m, refl, λ a. ground arith, elim idle [ inl free ↦ free | inr more ↦ absurd (omega arith) ])
  read_sectors-IsFetched (suc n) k dest lba count m r h idle =
      let u = ready_wait m in
      let a = record m { log = polled 0x1f7 ∷ u.before } in
      let v = ready_wait (drain (insw d 0x1f0 dest a)) in
      let b = record (drain (insw d 0x1f0 dest a)) { log = polled 0x1f7 ∷ v.before } in
      let begun = IsReading-Same r u.same in
      let (last, returned, bytes, free) =
        read_sectors-IsFetched n (k + 1) (dest + 512) lba count b
          (round-IsReading dest m u.before v.before begun v.same) (omega arith)
          (inl (v.before, refl, v.clear)) in
      (
        last,
        rw u.ended (rw v.ended returned),
        λ x.
            bytes x
            ∙ rw (next_sector lba k) (
                placed-next (lba + k) n dest m.mem b.mem x
                  (block-put lba count k dest m u.before begun u.clear (omega arith) x)),
        free,
      )

  pub fetched-IsFetched :
      (lba count dest : ℕ) (m : Machine)
      → IsReading lba count 0 m.log
      → 0 < count
      → IsFetched d sectors lba count dest m.mem (read_sectors d polls count dest m)
  fetched-IsFetched lba count dest m r more =
      let (last, returned, bytes, idle) =
        read_sectors-IsFetched count 0 dest lba count m r (omega arith) (inr more) in
      let from : lba + 0 ≡ lba = omega arith in
      record {
        last = last;
        returned = returned;
        bytes = λ a. bytes a ∙ ap (λ l. placed sectors l count dest m.mem a) from;
        idle = λ some_sectors. idle;
      }
