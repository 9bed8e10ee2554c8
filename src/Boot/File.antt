-- ===== src/Boot/File.antt =====
-- The kernel file that boot/main.c loads, and what loading a part of it means.
use myos_git.Prelude.{
  ℕ, zero, suc, ◌+◌, ◌-◌, ◌*◌, ◌/◌, ◌%◌, ◌^◌, ◌<◌, ◌≤◌, ◌≡◌, ◌⊎◌, refl, Option, some, arith, true,
}
use myos_git.Port.{Device, Machine}
use myos_git.Port.Ide.Registers.{Idle}
use myos_git.Boot.{
  Outcome, entered, little_endian, e_entry, e_phoff, e_phnum, magic, p_type, p_offset, p_paddr,
  p_filesz, pt_load, output, phdr_size, sectors_of,
}

-- Two memories that agree on some bytes give the same number there.
pub little_endian-agree :
    (n a : ℕ) (mem mem' : ℕ → ℕ)
    → ((x : ℕ) → a ≤ x → x < a + n → mem' x ≡ mem x)
    → little_endian mem' n a ≡ little_endian mem n a
unfolding little_endian
little_endian-agree zero a mem mem' h = refl
little_endian-agree (suc n) a mem mem' h = omega (
  arith,
  h a (omega arith) (omega arith),
  little_endian-agree n (a + 1) mem mem' (λ x p q. h x (omega arith) (omega arith)),
)

-- The kernel's file stands in the sectors 1, 2, …; its bytes by their place in the file.
abbrev pub file_byte : (ℕ → ℕ → ℕ) → ℕ → ℕ
file_byte sectors x = sectors (1 + x / 512) (x % 512)

module _ (sectors : ℕ → ℕ → ℕ) where
  -- The memory where the loader keeps the file's first sector.
  abbrev pub header : ℕ → ℕ
  header a = file_byte sectors (a - output)

  -- The program header i of the file.
  abbrev pub phdr : ℕ → ℕ
  phdr i = output + e_phoff header output + i * phdr_size

  abbrev pub count : ℕ
  count = e_phnum header output

  -- The byte lies where the loader puts the sectors of the segment i.
  abbrev pub InSegment : ℕ → ℕ → Type 0
  InSegment i a =
      (p_type header (phdr i) ≡ pt_load)
      × (p_paddr header (phdr i) ≤ a)
      × (a < p_paddr header (phdr i) + 512 * sectors_of (p_filesz header (phdr i)))

  -- A file that the loader can load: an ELF file whose headers lie in its first sector, with segments of 1
  -- to 256 sectors that begin at sectors of the file, none of them over the headers or another.
  pub record IsLoadable : Type 0 where
    pub elf : magic header output ≡ true
    pub fits : e_phoff header output + count * phdr_size ≤ 512
    pub aligned :
        (i : ℕ) → i < count → p_type header (phdr i) ≡ pt_load → p_offset header (phdr i) % 512 ≡ 0
    pub near :
        (i : ℕ) → i < count → p_type header (phdr i) ≡ pt_load → p_offset header (phdr i) < 2 ^ 36
    pub sized :
        (i : ℕ)
        → i < count
        → p_type header (phdr i) ≡ pt_load
        → (0 < p_filesz header (phdr i)) × (p_filesz header (phdr i) ≤ 512 * 256)
    pub apart : (i a : ℕ) → i < count → InSegment i a → (a < output) ⊎ (output + 512 ≤ a)
    pub disjoint : (i j a : ℕ) → i < count → j < count → InSegment i a → InSegment j a → i ≡ j

  -- The bytes of the segment stand at their physical address.
  abbrev pub Loaded : (ℕ → ℕ) → ℕ → Type 0
  Loaded mem i =
      p_type header (phdr i) ≡ pt_load
      → (x : ℕ) → x < p_filesz header (phdr i)
      → mem (p_paddr header (phdr i) + x) ≡ file_byte sectors (p_offset header (phdr i) + x)

  abbrev pub HasHeader : (ℕ → ℕ) → Type 0
  HasHeader mem = (a : ℕ) → output ≤ a → a < output + 512 → mem a ≡ header a

  -- From `i` on, the segments were loaded and no byte outside them was changed.
  pub record IsLoaded (d : Device) (i : ℕ) (m : Machine) (r : Option Outcome) : Type 0 where
    pub last : Machine
    pub started : r ≡ some (entered (e_entry header output) last)
    pub loaded : (l : ℕ) → i ≤ l → l < count → Loaded last.mem l
    pub idle : Idle d m.log → Idle d last.log
    pub others :
        (a : ℕ) → ((l : ℕ) × (i ≤ l) × (l < count) × InSegment l a) ⊎ (last.mem a ≡ m.mem a)

  -- `main` has loaded the file and started it, with the disk not busy.
  pub record IsBooted (d : Device) (m : Machine) (r : Option Outcome) : Type 0 where
    pub last : Machine
    pub started : r ≡ some (entered (e_entry header output) last)
    pub loaded : (l : ℕ) → l < count → Loaded last.mem l
    pub idle : Idle d last.log
    pub others :
        (a : ℕ)
        → ((l : ℕ) × (l < count) × InSegment l a)
          ⊎ ((output ≤ a) × (a < output + 512))
          ⊎ (last.mem a ≡ m.mem a)

  pub record IsCopied (d : Device) (i : ℕ) (m : Machine) (r : Option Machine) : Type 0 where
    pub last : Machine
    pub done : r ≡ some last
    pub loaded : Loaded last.mem i
    pub idle : Idle d m.log → Idle d last.log
    pub others : (a : ℕ) → InSegment i a ⊎ (last.mem a ≡ m.mem a)
