-- ===== src/Smp/Listed.antt =====
-- What kernel/lapic.c reads out of a table of processors.
use myos_git.Prelude.{
  ℕ, zero, suc, ◌+◌, ◌*◌, ◌≤◌, ◌<◌, ◌≡◌, ◌≢◌, refl, ap, ◌∙◌, ◌⊎◌, inl, inr, true, false, Option,
  none, some, List, [], ◌∷◌, ◌==◌, ltb, if◌then◌else◌, update, arith, length, Bool-cases,
}
use myos_git.Smp.{
  Cores, read_entries, maxcpus, search_from, find_smp_config, signed, init_mp_config, or_else,
  short_at, int_at,
}

-- The entries of the multiprocessor specification that the kernel tells apart: a processor with the identifier of
-- its local APIC, an I/O APIC, and any other, of the type given.
pub data Entry : Type 0 where
  processor : ℕ → Entry
  io_apic : Entry
  other : ℕ → Entry

-- The entries stand from the address on, one after another.
abbrev pub Laid : (ℕ → ℕ) → ℕ → List Entry → Type 0
Laid mem a [] = Unit
Laid mem a (processor id ∷ es) = (mem a ≡ 0) × (mem (a + 1) ≡ id) × Laid mem (a + 20) es
Laid mem a (io_apic ∷ es) = (mem a ≡ 2) × Laid mem (a + 8) es
Laid mem a (other t ∷ es) = (mem a ≡ t) × (t ≢ 0) × Laid mem (a + 8) es

abbrev pub ids : List Entry → List ℕ
ids [] = []
ids (processor id ∷ es) = id ∷ ids es
ids (io_apic ∷ es) = ids es
ids (other t ∷ es) = ids es

-- The identifiers stored from the place `n` on.
abbrev pub stored : List ℕ → ℕ → (ℕ → ℕ) → ℕ → ℕ
stored [] n f = f
stored (id ∷ l) n f = stored l (n + 1) (update f n id)

-- The processors of a table, in its order, are added to those that were there where all fit `lapic_ids`; where they
-- do not, the loop writes outside the array.
pub read_entries-ids :
    (es : List Entry) (mem : ℕ → ℕ) (pp : ℕ) (s : Cores)
    → Laid mem pp es
    → s.numcores ≤ maxcpus
    → read_entries mem (length es) pp s ≡ (
        if ltb maxcpus (s.numcores + length (ids es))
        then none
        else some record {
          lapic_ids = stored (ids es) s.numcores s.lapic_ids;
          numcores = s.numcores + length (ids es);
        })
unfolding read_entries
read_entries-ids [] mem pp s laid fits = ground arith
read_entries-ids (processor id ∷ es) mem pp s (kind, here, rest) fits =
    rw (kind, here)
      (elim (Bool-cases (ltb s.numcores maxcpus)) [
        | inl room ↦
            let s' : Cores = record {
              lapic_ids = update s.lapic_ids s.numcores id;
              numcores = s.numcores + 1;
            } in
            let regroup : s.numcores + suc (length (ids es)) ≡ s.numcores + 1 + length (ids es) =
              omega arith in
            rw (room, regroup) (read_entries-ids es mem (pp + 20) s' rest (ground arith))
        | inr full ↦ rw full (ground arith)
      ])
read_entries-ids (io_apic ∷ es) mem pp s (kind, rest) fits =
    rw kind (read_entries-ids es mem (pp + 8) s rest fits)
read_entries-ids (other t ∷ es) mem pp s (kind, ne, rest) fits =
    let not_core : (mem pp == 0) ≡ false = ground arith in
    rw not_core (read_entries-ids es mem (pp + 8) s rest fits)

-- The place a and those after it.
signed_all :
    (n a : ℕ) (mem : ℕ → ℕ)
    → signed mem a ≡ false
    → ((j : ℕ) → j < n → signed mem (a + 4 + 4 * j) ≡ false)
    → (j : ℕ) → j < suc n
    → signed mem (a + 4 * j) ≡ false
signed_all n a mem miss all zero below = rw (place_zero a) miss
  where
    place_zero : (a : ℕ) → a + 4 * 0 ≡ a
    place_zero a = omega arith
signed_all n a mem miss all (suc j) below =
    let e : a + 4 * suc j ≡ a + 4 + 4 * j = omega arith in ap (signed mem) e ∙ all j (omega arith)

-- `search_from` finds the first place of the signature among those a multiple of 4 on.
pub record IsFirst (mem : ℕ → ℕ) (a n k : ℕ) : Type 0 where
  pub inside : k < n
  pub here : signed mem (a + 4 * k) ≡ true
  pub none_before : (j : ℕ) → j < k → signed mem (a + 4 * j) ≡ false

search_from-IsFirst :
    (n a : ℕ) (mem : ℕ → ℕ)
    → ((k : ℕ) × (search_from mem n a ≡ some (a + 4 * k)) × IsFirst mem a n k)
      ⊎ ((search_from mem n a ≡ none) × ((j : ℕ) → j < n → signed mem (a + 4 * j) ≡ false))
unfolding search_from
search_from-IsFirst zero a mem = inr (refl, λ j below. absurd (omega arith))
search_from-IsFirst (suc n) a mem = elim (Bool-cases (signed mem a)) [
  | inl here ↦
      let e : a + 4 * 0 ≡ a = omega arith in
      inl (
        0,
        rw (here, e) refl,
        record {
          inside = omega arith;
          here = ap (signed mem) e ∙ here;
          none_before = λ j below. absurd (omega arith);
        },
      )
  | inr miss ↦ elim (search_from-IsFirst n (a + 4) mem) [
    | inl (k, found, first) ↦
        let e : a + 4 * suc k ≡ a + 4 + 4 * k = omega arith in
        inl (
          suc k,
          rw (miss, e) found,
          record {
            inside = omega (arith, first.inside);
            here = ap (signed mem) e ∙ first.here;
            none_before = signed_all k a mem miss first.none_before;
          },
        )
    | inr (missed, all) ↦ inr (rw miss missed, signed_all n a mem miss all)
  ]
]

-- Where the searches find the pointer structure first: in the first kilobyte, at the end of the base memory, or
-- in the BIOS.
abbrev pub pointer_at : (ℕ → ℕ) → Option ℕ
pointer_at mem =
    or_else (find_smp_config mem 0 0x400)
      (or_else (find_smp_config mem (639 * 0x400) 0x400) (find_smp_config mem 0xf0000 0x10000))

-- With the pointer structure found and the entries laid out behind the table that it points to, `init_mp_config`
-- lists the identifiers of the processors among them in their order, whatever their flags and whatever
-- `default_configuration` is, if there are at most eight; with more it
-- writes outside `lapic_ids`.
pub init_mp_config-ids :
    (mem : ℕ → ℕ) (ids_before : ℕ → ℕ) (mpfp : ℕ) (es : List Entry)
    → pointer_at mem ≡ some mpfp
    → short_at mem (int_at mem (mpfp + 4) + 34) ≡ length es
    → Laid mem (int_at mem (mpfp + 4) + 44) es
    → init_mp_config mem (record { lapic_ids = ids_before; numcores = 0 }) ≡ (
        if ltb maxcpus (length (ids es))
        then none
        else some record { lapic_ids = stored (ids es) 0 ids_before; numcores = length (ids es) })
unfolding init_mp_config
init_mp_config-ids mem ids_before mpfp es found counted laid =
    let zero_more : 0 + length (ids es) ≡ length (ids es) = omega arith in
    let s : Cores = record { lapic_ids = ids_before; numcores = 0 } in
    rw (found, counted, ← zero_more)
      (read_entries-ids es mem (int_at mem (mpfp + 4) + 44) s laid (omega arith))
