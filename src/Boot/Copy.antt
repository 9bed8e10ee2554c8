-- ===== src/Boot/Copy.antt =====
-- One segment of the kernel file copied by boot/main.c.
use myos_git.Prelude.{
  ℕ, ◌+◌, ◌*◌, ◌/◌, ◌%◌, ◌^◌, ◌<◌, ◌≤◌, ◌≡◌, refl, ◌∙◌, ◌==◌, arith, Bool-cases, inl, inr,
}
use myos_git.Port.{Device, Machine}
use myos_git.Port.Ide.Registers.{IsDisk, registers-IsReading, last_byte, fetched}
use myos_git.Port.Ide.Disk.{IsFetched, fetched-IsFetched, placed, placed-inside, placed-cases}
use myos_git.Boot.{
  diskcpy, start_copy, load_segment, little_endian, p_type, p_offset, p_paddr, p_filesz, pt_load,
  phdr_size, first_sector, sectors_of,
}
use myos_git.Boot.File.{
  file_byte, header, phdr, count, IsLoadable, HasHeader, IsCopied, little_endian-agree,
}

module _ (d : Device) (sectors : ℕ → ℕ → ℕ) (polls : ℕ) (disk : IsDisk d sectors polls) where
  pub diskcpy-IsFetched :
      (dest lba count : ℕ) (m : Machine)
      → 0 < count
      → count ≤ 256
      → lba < 2 ^ 28
      → IsFetched d sectors lba count dest m.mem (diskcpy d polls dest lba count m)
  unfolding diskcpy last_byte fetched
  diskcpy-IsFetched dest lba count m some_sectors few low =
      let begun = start_copy lba count m in
      let r =
        registers-IsReading 0xe0 lba count begun.log refl refl refl refl refl refl refl refl
          (omega arith) low some_sectors few in
      fetched-IsFetched d sectors polls disk lba count dest begun r some_sectors

  module _ (ok : IsLoadable sectors) where
    field-kept :
        (mem : ℕ → ℕ) (i n at : ℕ)
        → HasHeader sectors mem
        → i < count sectors
        → at + n ≤ phdr_size
        → little_endian mem n (phdr sectors i + at)
          ≡ little_endian (header sectors) n (phdr sectors i + at)
    field-kept mem i n at has_header h w =
        little_endian-agree n (phdr sectors i + at) (header sectors) mem
          (λ x p q. has_header x (omega arith) (omega (arith, ok.fits)))

    type-kept :
        (mem : ℕ → ℕ) (i : ℕ)
        → HasHeader sectors mem
        → i < count sectors
        → p_type mem (phdr sectors i) ≡ p_type (header sectors) (phdr sectors i)
    type-kept mem i has_header h =
        little_endian-agree 4 (phdr sectors i) (header sectors) mem
          (λ x p q. has_header x (omega arith) (omega (arith, ok.fits)))

    pub sectors_of-enough :
        (i : ℕ)
        → i < count sectors
        → p_type (header sectors) (phdr sectors i) ≡ pt_load
        → (x : ℕ) → x < p_filesz (header sectors) (phdr sectors i)
        → x < 512 * sectors_of (p_filesz (header sectors) (phdr sectors i))
    sectors_of-enough i h load x below = omega (arith, ok.sized i h load)

    in_file :
        (offset x : ℕ)
        → offset < 2 ^ 36
        → offset % 512 ≡ 0
        → sectors (first_sector offset + x / 512) (x % 512) ≡ file_byte sectors (offset + x)
    in_file offset x near aligned =
        let sector : first_sector offset + x / 512 ≡ 1 + (offset + x) / 512 = omega arith in
        let place : x % 512 ≡ (offset + x) % 512 = omega arith in rw (sector, place) refl

    -- A segment to load, from a memory that has the headers.
    copy-IsCopied :
        (i : ℕ) (m : Machine)
        → i < count sectors
        → p_type (header sectors) (phdr sectors i) ≡ pt_load
        → IsCopied sectors d i m (
            diskcpy d polls
              (p_paddr (header sectors) (phdr sectors i))
              (first_sector (p_offset (header sectors) (phdr sectors i)))
              (sectors_of (p_filesz (header sectors) (phdr sectors i)))
              m)
    unfolding placed
    copy-IsCopied i m h load =
        let hdr = phdr sectors i in
        let dest = p_paddr (header sectors) hdr in
        let offset = p_offset (header sectors) hdr in
        let size = p_filesz (header sectors) hdr in
        let near : offset < 2 ^ 36 = ok.near i h load in
        let aligned : offset % 512 ≡ 0 = ok.aligned i h load in
        let f =
          diskcpy-IsFetched dest (first_sector offset) (sectors_of size) m
            (omega (arith, ok.sized i h load)) (omega (arith, ok.sized i h load)) (omega arith) in
        record {
          last = f.last;
          done = f.returned;
          loaded = λ _ x below.
              f.bytes (dest + x)
              ∙ placed-inside sectors (first_sector offset) (sectors_of size) dest m.mem x
                  (sectors_of-enough i h load x below)
              ∙ in_file offset x near aligned;
          idle = λ _. f.idle (omega (arith, ok.sized i h load));
          others = λ a.
              elim (placed-cases sectors (first_sector offset) (sectors_of size) dest m.mem a) [
                | inl (low, high) ↦ inl (load, low, high)
                | inr kept ↦ inr (f.bytes a ∙ kept)
              ];
        }

    pub segment-IsCopied :
        (i : ℕ) (m : Machine)
        → HasHeader sectors m.mem
        → i < count sectors
        → IsCopied sectors d i m (load_segment d polls (phdr sectors i) m)
    unfolding load_segment
    segment-IsCopied i m has_header h =
        rw
          (
            type-kept m.mem i has_header h,
            field-kept m.mem i 8 8 has_header h (omega arith),
            field-kept m.mem i 8 24 has_header h (omega arith),
            field-kept m.mem i 8 32 has_header h (omega arith),
          )
          (elim (Bool-cases (p_type (header sectors) (phdr sectors i) == pt_load)) [
            | inl load ↦ rw load (copy-IsCopied i m h (ground arith))
            | inr skip ↦ rw skip record {
              last = m;
              done = refl;
              loaded = λ load. absurd (ground arith);
              idle = λ free. free;
              others = λ a. inr refl;
            }
          ])
