-- ===== src/Vmx/Memory/Bytes.antt =====
-- The page that `sys_mmap_mem` of kernel/amd64/vmx.c gives the guest.
use mathlib.Core.Path.{subst}
use myos_git.Prelude.{
  ℕ, zero, suc, ◌+◌, ◌*◌, ◌/◌, ◌%◌, ◌^◌, ◌≤◌, ◌<◌, ◌≡◌, ◌≢◌, ◌⊎◌, refl, sym, ap, ◌∙◌, inl, inr,
  false, Option, none, some, List, ◌∷◌, arith, bit_or, length, has, update, ◌==◌, ==_iff,
  Bool-cases,
}
use myos_git.Prelude.Int.{pos}
use myos_git.Prelude.Result.{Returns, Returns-map}
use myos_git.Mm.State.{Mm}
use myos_git.Mm.{page2pa, alloc_page, page_size}
use myos_git.Mm.Frames.{IsTaken, alloc_page-cons}
use myos_git.Mm.Tables.{Owner, place, entry_at, UserAddress}
use myos_git.Mm.Tables.Agree.{same_entry, same-IsForest}
use myos_git.Mm.Walk.{IsTables}
use myos_git.Mm.Walk.Insert.{insert_page-IsInserted}
use myos_git.Mm.Walk.Range.{low-UserAddress}
use myos_git.Vmx.State.{Vmx, Returns-lift_mm}
use myos_git.Mm.Bytes.{
  put_byte, put_bytes, with_byte, byte_of, read_byte, read_byte-put_byte, read_byte-put_other,
}
use myos_git.Vmx.Memory.{map_bytes, map_in, sys_mmap_mem}

-- Only the frames of the addresses written change.
put_bytes-outside :
    (n a : ℕ) (bytes : ℕ → ℕ) (mem : ℕ → ℕ → ℕ) (f : ℕ)
    → ((x : ℕ) → x < n → (a + x) / page_size ≢ f)
    → put_bytes a n bytes mem f ≡ mem f
unfolding put_bytes
put_bytes-outside zero a bytes mem f apart = refl
put_bytes-outside (suc n) a bytes mem f apart =
    put_bytes-outside n (a + 1) (λ i. bytes (i + 1)) (put_byte a (bytes 0) mem) f
      (λ x below e. apart (suc x) (omega arith) (omega arith))
    ∙ ground (arith, apart 0)

-- A frame after the writes follows from the frame before them.
put_byte-agree :
    (a b : ℕ) (mem mem' : ℕ → ℕ → ℕ) (f : ℕ)
    → mem f ≡ mem' f
    → put_byte a b mem f ≡ put_byte a b mem' f
unfolding put_byte
put_byte-agree a b mem mem' f same = elim (Bool-cases (a / page_size == f)) [
  | inl hit ↦
      let here : mem (a / page_size) ≡ mem' (a / page_size) =
        subst (λ g. mem g ≡ mem' g) (sym ((==_iff _ _).0 hit)) same in
      rw hit (
        ap
          (λ (w : ℕ → ℕ).
            update w (a % page_size / 8) (with_byte (a % 8) b (w (a % page_size / 8))))
          here)
  | inr other ↦ rw other same
]

put_bytes-agree :
    (n a : ℕ) (bytes : ℕ → ℕ) (mem mem' : ℕ → ℕ → ℕ) (f : ℕ)
    → mem f ≡ mem' f
    → put_bytes a n bytes mem f ≡ put_bytes a n bytes mem' f
unfolding put_bytes
put_bytes-agree zero a bytes mem mem' f same = same
put_bytes-agree (suc n) a bytes mem mem' f same =
    put_bytes-agree n (a + 1) (λ i. bytes (i + 1)) (put_byte a (bytes 0) mem)
      (put_byte a (bytes 0) mem') f (put_byte-agree a (bytes 0) mem mem' f same)

-- The bytes written are read back, and the other bytes stay.
read_byte-put_bytes_out :
    (n a : ℕ) (bytes : ℕ → ℕ) (mem : ℕ → ℕ → ℕ) (c : ℕ)
    → (c < a) ⊎ (a + n ≤ c)
    → read_byte c (put_bytes a n bytes mem) ≡ read_byte c mem
unfolding put_bytes
read_byte-put_bytes_out zero a bytes mem c out = refl
read_byte-put_bytes_out (suc n) a bytes mem c out =
    read_byte-put_bytes_out n (a + 1) (λ i. bytes (i + 1)) (put_byte a (bytes 0) mem) c
      (elim out [ inl before ↦ inl (omega arith) | inr after ↦ inr (omega arith) ])
    ∙ read_byte-put_other c a (bytes 0) mem
        (λ e. elim out [ inl before ↦ absurd (omega arith) | inr after ↦ absurd (omega arith) ])

read_byte-put_bytes :
    (n a : ℕ) (bytes : ℕ → ℕ) (mem : ℕ → ℕ → ℕ) (x : ℕ)
    → x < n
    → read_byte (a + x) (put_bytes a n bytes mem) ≡ bytes x % 2 ^ 8
unfolding put_bytes
read_byte-put_bytes zero a bytes mem x below = absurd (omega arith)
read_byte-put_bytes (suc n) a bytes mem zero below =
    let e : a + 0 ≡ a = omega arith in
    ap (λ c. read_byte c (put_bytes a (suc n) bytes mem)) e
    ∙ read_byte-put_bytes_out n (a + 1) (λ i. bytes (i + 1)) (put_byte a (bytes 0) mem) a
        (inl (omega arith))
    ∙ read_byte-put_byte a (bytes 0) mem
read_byte-put_bytes (suc n) a bytes mem (suc x) below =
    let e : a + suc x ≡ a + 1 + x = omega arith in
    let f : x + 1 ≡ suc x = omega arith in
    ap (λ c. read_byte c (put_bytes a (suc n) bytes mem)) e
    ∙ read_byte-put_bytes n (a + 1) (λ i. bytes (i + 1)) (put_byte a (bytes 0) mem) x (omega arith)
    ∙ ap (λ y. bytes y % 2 ^ 8) f

-- A byte is read from its page.
read_byte-agree :
    (c p : ℕ) (mem mem' : ℕ → ℕ → ℕ)
    → c / page_size ≡ p
    → ((j : ℕ) → mem p j ≡ mem' p j)
    → read_byte c mem ≡ read_byte c mem'
unfolding read_byte
read_byte-agree c p mem mem' e same = rw e (ap (byte_of (c % 8)) (same (c % page_size / 8)))

byte_of-zero : (i : ℕ) → byte_of i 0 ≡ 0
unfolding byte_of
byte_of-zero zero = refl
byte_of-zero (suc i) = byte_of-zero i

read_byte-zero : (c : ℕ) → read_byte c (λ f i. 0) ≡ 0
unfolding read_byte
read_byte-zero c = byte_of-zero (c % 8)

-- The page of `gpa` is the page p, which is no page table: the byte x of the caller's is at the place of `gpa` in it
-- and x, and its other bytes are 0; the entries of all other pages of all address spaces stay.
pub record IsGiven (owner : Owner) (s : Mm) (p ept gpa length : ℕ) (bytes : ℕ → ℕ) (t : Mm)
    : Type 0 where
  pub owner' : Owner
  pub left : List ℕ
  pub tables : IsTables owner' t left
  pub entry_set : entry_at t.mem ept gpa ≡ bit_or (page2pa p) 7
  pub data_page : (owner' p ≡ none) × (has p left ≡ false)
  pub content :
      (x : ℕ) → x < length → read_byte (p * page_size + gpa % page_size + x) t.mem ≡ bytes x % 2 ^ 8
  pub around :
      (x : ℕ)
      → x < page_size
      → (x < gpa % page_size) ⊎ (gpa % page_size + length ≤ x)
      → read_byte (p * page_size + x) t.mem ≡ 0
  pub others :
      (pgdir' va' : ℕ)
      → owner pgdir' ≡ some (place pgdir' 0 0)
      → UserAddress va'
      → (pgdir' ≢ ept) ⊎ (va' / 2 ^ 12 % 2 ^ 36 ≢ gpa / 2 ^ 12 % 2 ^ 36)
      → entry_at t.mem pgdir' va' ≡ entry_at s.mem pgdir' va'

module _ (owner : Owner) (s : Mm) (p : ℕ) (xs : List ℕ) (ept gpa n : ℕ) (bytes : ℕ → ℕ)
    (w : IsTables owner s (p ∷ xs)) (root : owner ept ≡ some (place ept 0 0)) (low : gpa < 2 ^ 47)
    (inside : gpa % page_size + n ≤ page_size) (room : 3 ≤ length xs) where
  abbrev at : ℕ
  at = p * page_size + gpa % page_size

  map_bytes-IsGiven :
      (t : Mm)
      → IsTaken s 1 p xs t
      → Returns
          (λ r u. (r ≡ pos 0) × IsGiven owner s p ept gpa n bytes u)
          (map_bytes ept gpa n bytes (some p, t))
  unfolding map_bytes
  map_bytes-IsGiven t taken =
      let t' = record t { mem = put_bytes at n bytes t.mem } in
      let kept : (q : ℕ) → q ≢ p → t'.mem q ≡ s.mem q = λ q ne.
        put_bytes-outside n at bytes t.mem q (λ x below e. ne (omega arith))
        ∙ (taken.others q ne).1 in
      let written : ℕ → ℕ → ℕ = put_bytes at n bytes (λ f i. 0) in
      let clear : t.mem p ≡ (λ i. 0) = λ i j. taken.zeroed refl j i in
      let tables : IsTables owner t' xs = record {
        free = record {
          chain = taken.free.chain;
          distinct = taken.free.distinct;
          unused = taken.free.unused;
        };
        forest = same-IsForest owner s t' p w.unowned.0 kept w.forest;
        unowned = w.unowned.1;
      } in
      Returns-map
        (insert_page-IsInserted owner t' xs ept gpa tables root (low-UserAddress gpa low) room p 7)
        (λ r u h. (
          h.success,
          record {
            owner' = h.owner';
            left = h.left;
            tables = h.tables;
            entry_set = h.entry_set;
            data_page =
                (h.same_owner p w.free.distinct.0 ∙ w.unowned.0, h.fewer p w.free.distinct.0);
            content = λ x below.
                read_byte-agree (at + x) p u.mem written (omega arith) (λ j.
                  h.frames p j w.free.distinct.0 w.unowned.0
                  ∙ (λ i. put_bytes-agree n at bytes t.mem (λ f i. 0) p clear i j))
                ∙ read_byte-put_bytes n at bytes (λ f i. 0) x below;
            around = λ x inside_page apart.
                read_byte-agree (p * page_size + x) p u.mem written (omega arith) (λ j.
                  h.frames p j w.free.distinct.0 w.unowned.0
                  ∙ (λ i. put_bytes-agree n at bytes t.mem (λ f i. 0) p clear i j))
                ∙ read_byte-put_bytes_out n at bytes (λ f i. 0) (p * page_size + x)
                    (elim apart [ inl before ↦ inl (omega arith) | inr after ↦ inr (omega arith) ])
                ∙ read_byte-zero (p * page_size + x);
            others = λ pgdir' va' root' user' apart.
                h.others pgdir' va' root' user' apart
                ∙ same_entry owner s t' p w.unowned.0 kept pgdir' va' w.forest root' user';
          },
        ))

  map_in-IsGiven :
      Returns
        (λ r u. (r ≡ pos 0) × IsGiven owner s p ept gpa n bytes u)
        (map_in (some ept) gpa n bytes s)
  unfolding map_in
  map_in-IsGiven = new_page (alloc_page 1 s) (alloc_page-cons 1 p xs w.free)
    where
      new_page :
          (r : Option ℕ × Mm)
          → (r.0 ≡ some p) × IsTaken s 1 p xs r.1
          → Returns
              (λ z u. (z ≡ pos 0) × IsGiven owner s p ept gpa n bytes u)
              (map_bytes ept gpa n bytes r)
      new_page (o, t) (first, taken) =
          subst
            (λ x.
              Returns (λ z u. (z ≡ pos 0) × IsGiven owner s p ept gpa n bytes u)
                (map_bytes ept gpa n bytes (x, t)))
            (sym first) (map_bytes-IsGiven t taken)

-- Over well-formed tables, for a `gpa` below 2 ^ 47 and bytes that end within its page, with a free
-- page and three more, `sys_mmap_mem` returns 0, leaves the fields of the VMCS, and gives the guest at
-- that page the first free page: each byte given can be read at its place in it, every other byte of
-- the page is 0, and the entries of all other pages stay.
pub sys_mmap_mem-IsGiven :
    (owner : Owner) (v : Vmx) (p : ℕ) (xs : List ℕ) (ept gpa n : ℕ) (bytes : ℕ → ℕ)
    → v.ept_pgdir ≡ some ept
    → IsTables owner v.mm (p ∷ xs)
    → owner ept ≡ some (place ept 0 0)
    → gpa < 2 ^ 47
    → gpa % page_size + n ≤ page_size
    → 3 ≤ length xs
    → Returns
        (λ r u.
          ((r ≡ pos 0) × IsGiven owner v.mm p ept gpa n bytes u.mm)
          × ((f : ℕ) → u.vmcs f ≡ v.vmcs f))
        (sys_mmap_mem bytes n gpa v)
unfolding sys_mmap_mem
sys_mmap_mem-IsGiven owner v p xs ept gpa n bytes here tables root low inside room =
    Returns-lift_mm v (
      subst
        (λ o.
          Returns (λ z t. (z ≡ pos 0) × IsGiven owner v.mm p ept gpa n bytes t)
            (map_in o gpa n bytes v.mm))
        (sym here) (map_in-IsGiven owner v.mm p xs ept gpa n bytes tables root low inside room))
