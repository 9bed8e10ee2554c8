-- ===== src/Proc/Load/Loaded.antt =====
-- All segments of a program, as the loop of `load_img` in kernel/proc.c loads them.
use mathlib.Core.Path.{subst}
use myos_git.Prelude.{
  ℕ, zero, suc, ◌+◌, ◌-◌, ◌*◌, ◌%◌, ◌^◌, ◌≤◌, ◌<◌, ◌≡◌, ◌≢◌, ◌⊎◌, refl, sym, inl, inr, true, false,
  some, List, arith, ◌==◌, ==_iff, Bool-cases, length, if◌then◌else◌,
}
use myos_git.Prelude.Int.{pos}
use myos_git.Prelude.Result.{ok, and_then, Returns, returns, Returns-and_then, Returns-map}
use myos_git.Mm.State.{Mm}
use myos_git.Mm.Tables.{Owner, place}
use myos_git.Mm.Walk.{IsTables, Extends}
use myos_git.Boot.{magic, e_phoff, e_phnum, p_type, p_offset, pt_load, phdr_size}
use myos_git.Proc.Space.{memmap, ustacktop}
use myos_git.Proc.Space.Range.{pages_of}
use myos_git.Proc.Load.{
  p_vaddr, size_in_memory, load_segment, load_pages, load_segments, copy_bytes,
}
use myos_git.Proc.Load.Kept.{IsAt, base_of}
use myos_git.Proc.Load.Segments.{IsSegment, load_range-IsSegment}

module _ (binary : ℕ → ℕ) where
  -- The program headers, and the addresses and sizes of their segments.
  abbrev pub header : ℕ → ℕ
  header i = e_phoff binary 0 + i * phdr_size

  abbrev pub start : ℕ → ℕ
  start i = p_vaddr binary (header i)

  abbrev pub size : ℕ → ℕ
  size i = size_in_memory binary (header i)

  abbrev pub IsLoad : ℕ → Type 0
  IsLoad i = p_type binary (header i) ≡ pt_load

  -- An address outside the pages of the segment.
  abbrev pub Outside : ℕ → ℕ → Type 0
  Outside i a = (a < base_of (start i)) ⊎ (base_of (start i) + pages_of (size i) * 4096 ≤ a)

  -- The pages that the segments from `i` on take.
  unfoldable pub cost : ℕ → ℕ
  cost i = if p_type binary (header i) == pt_load then pages_of (size i) else 0

  abbrev pub needed : ℕ → ℕ → ℕ
  needed zero i = 0
  needed (suc n) i = cost i + needed n (i + 1)

  cost-load : (i : ℕ) → (p_type binary (header i) == pt_load) ≡ true → cost i ≡ pages_of (size i)
  unfolding cost
  cost-load i load = rw load refl

  cost-other : (i : ℕ) → (p_type binary (header i) == pt_load) ≡ false → cost i ≡ 0
  unfolding cost
  cost-other i other = rw other refl

  -- An ELF image whose segments lie below the stack's page, each within the pages that `memmap` counts, and no two of
  -- them in one page.
  pub record IsImage : Type 0 where
    pub elf : magic binary 0 ≡ true
    pub below :
        (i : ℕ)
        → i < e_phnum binary 0
        → IsLoad i
        → base_of (start i) + pages_of (size i) * 4096 ≤ ustacktop - 4096
    pub inside :
        (i : ℕ)
        → i < e_phnum binary 0
        → IsLoad i
        → start i + size i ≤ base_of (start i) + pages_of (size i) * 4096
    pub apart :
        (i j a : ℕ)
        → i < e_phnum binary 0
        → j < e_phnum binary 0
        → i ≢ j
        → IsLoad i
        → IsLoad j
        → start i ≤ a
        → a < start i + size i
        → Outside j a

  -- The bytes of the segment stand at its addresses.
  abbrev pub Loaded : Owner → Mm → List ℕ → ℕ → ℕ → Type 0
  Loaded owner t left pgdir i =
      (a : ℕ)
      → start i ≤ a
      → a < start i + size i
      → IsAt owner t left pgdir a (binary (p_offset binary (header i) + (a - start i)) % 2 ^ 8)

  -- After the segments from `i` on.
  pub record IsFilled (owner : Owner) (s : Mm) (xs : List ℕ) (pgdir n i : ℕ) (t : Mm) : Type 0 where
    pub owner' : Owner
    pub left : List ℕ
    pub tables : IsTables owner' t left
    pub extends : Extends owner owner'
    pub enough : length xs ≤ length left + 4 * needed n i
    pub loaded : (l : ℕ) → i ≤ l → l < i + n → IsLoad l → Loaded owner' t left pgdir l
    pub kept :
        (a b : ℕ)
        → IsAt owner s xs pgdir a b
        → ((l : ℕ) → i ≤ l → l < i + n → IsLoad l → Outside l a)
        → IsAt owner' t left pgdir a b

  load_segment-load :
      (pgdir i : ℕ) (s : Mm)
      → (p_type binary (header i) == pt_load) ≡ true
      → load_segment pgdir binary (header i) s
        ≡ and_then (memmap pgdir (start i) (size i) s) (λ r t.
          copy_bytes (size i) pgdir (start i) (λ x. binary (p_offset binary (header i) + x)) t)
  unfolding load_segment load_pages
  load_segment-load pgdir i s load = rw load refl

  load_segment-other :
      (pgdir i : ℕ) (s : Mm)
      → (p_type binary (header i) == pt_load) ≡ false
      → load_segment pgdir binary (header i) s ≡ ok (pos 0) s
  unfolding load_segment
  load_segment-other pgdir i s other = rw other refl

  module _ (image : IsImage) (pgdir n i : ℕ) (owner : Owner) (s : Mm) (xs : List ℕ)
      (count : i + suc n ≡ e_phnum binary 0) where
    -- A segment, and then the others.
    add-IsFilled :
        (t u : Mm) (load : (p_type binary (header i) == pt_load) ≡ true)
        (seg : IsSegment owner s xs pgdir
          (start i)
          (size i)
          (λ x. binary (p_offset binary (header i) + x))
          t)
        (rest : IsFilled seg.owner' t seg.left pgdir n (i + 1) u)
        → IsFilled owner s xs pgdir (suc n) i u
    add-IsFilled t u load seg rest =
        let is_load : IsLoad i = (==_iff _ _).0 load in
        record {
          owner' = rest.owner';
          left = rest.left;
          tables = rest.tables;
          extends = λ q a at. rest.extends q a (seg.extends q a at);
          enough = omega (arith, cost-load i load, seg.enough, rest.enough);
          loaded = λ l from to load_l. elim (Bool-cases (l == i)) [
            | inl same ↦
                let e : i ≡ l = sym ((==_iff _ _).0 same) in
                subst (Loaded rest.owner' u rest.left pgdir) e (λ a from_a to_a.
                  rest.kept a _ (seg.loaded a from_a to_a) (λ j from_j to_j load_j.
                    image.apart i j a (omega arith) (omega arith) (omega arith) is_load load_j
                      from_a to_a))
            | inr other ↦
                let ne : l ≢ i = ground (arith, other) in
                rest.loaded l (omega arith) (omega arith) load_l
          ];
          kept = λ a b at out.
              rest.kept a b (seg.kept a b at (out i (omega arith) (omega arith) is_load))
                (λ l from to load_l. out l (omega arith) (omega arith) load_l);
        }

    skip-IsFilled :
        (u : Mm) (other : (p_type binary (header i) == pt_load) ≡ false)
        (rest : IsFilled owner s xs pgdir n (i + 1) u)
        → IsFilled owner s xs pgdir (suc n) i u
    skip-IsFilled u other rest = record {
      owner' = rest.owner';
      left = rest.left;
      tables = rest.tables;
      extends = rest.extends;
      enough = omega (arith, cost-other i other, rest.enough);
      loaded = λ l from to load_l.
          let ne : l ≢ i = λ e. ground (arith, other, e, load_l) in
          rest.loaded l (omega arith) (omega arith) load_l;
      kept = λ a b at out.
          rest.kept a b at (λ l from to load_l. out l (omega arith) (omega arith) load_l);
    }

  module _ (image : IsImage) (pgdir : ℕ) where
    pub load_segments-IsFilled :
        (n i : ℕ) (owner : Owner) (s : Mm) (xs : List ℕ)
        → IsTables owner s xs
        → owner pgdir ≡ some (place pgdir 0 0)
        → i + n ≡ e_phnum binary 0
        → 4 * needed n i ≤ length xs
        → Returns
            (λ r t. IsFilled owner s xs pgdir n i t)
            (load_segments n pgdir binary (header i) s)
    unfolding load_segments
    load_segments-IsFilled zero i owner s xs w root count room = returns record {
      owner' = owner;
      left = xs;
      tables = w;
      extends = λ q a at. at;
      enough = omega arith;
      loaded = λ l from to. absurd (omega arith);
      kept = λ a b at out. at;
    }
    load_segments-IsFilled (suc n) i owner s xs w root count room =
        let next : header i + phdr_size ≡ header (i + 1) = omega arith in
        rw next (elim (Bool-cases (p_type binary (header i) == pt_load)) [
          | inl load ↦
              let is_load : IsLoad i = (==_iff _ _).0 load in
              rw (load_segment-load pgdir i s load) (
                Returns-and_then (λ r t. load_segments n pgdir binary (header (i + 1)) t)
                  (load_range-IsSegment owner s xs pgdir (start i) (size i)
                    (λ x. binary (p_offset binary (header i) + x)) w root
                    (omega (arith, image.below i (omega arith) is_load))
                    (image.inside i (omega arith) is_load) (omega (arith, cost-load i load)))
                  (λ r t seg.
                    Returns-map
                      (load_segments-IsFilled n (i + 1) seg.owner' t seg.left seg.tables
                        (seg.extends pgdir (place pgdir 0 0) root) (omega arith)
                        (omega (arith, cost-load i load, seg.enough)))
                      (λ r' u rest.
                        add-IsFilled image pgdir n i owner s xs count t u load seg rest)))
          | inr other ↦ rw (load_segment-other pgdir i s other) (
              Returns-map
                (load_segments-IsFilled n (i + 1) owner s xs w root (omega arith)
                  (omega (arith, cost-other i other)))
                (λ r u rest. skip-IsFilled image pgdir n i owner s xs count u other rest))
        ])
