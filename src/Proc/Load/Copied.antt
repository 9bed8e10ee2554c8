-- ===== src/Proc/Load/Copied.antt =====
-- The bytes that `memcpy` leaves at a user's addresses.
use myos_git.Prelude.{
  ℕ, zero, suc, ◌+◌, ◌*◌, ◌/◌, ◌%◌, ◌^◌, ◌-◌, ◌≤◌, ◌<◌, ◌≡◌, ◌≢◌, refl, sym, ap, ◌∙◌, true, none,
  some, arith, inl, inr, ◌==◌, ==_iff, Bool-cases,
}
use myos_git.Prelude.Int.{pos}
use myos_git.Prelude.Result.{ok, Returns, returns, Returns-map}
use myos_git.Mm.State.{Mm}
use myos_git.Mm.{frame_of, page_size, present}
use myos_git.Mm.Bytes.{put_byte, read_byte, read_byte-put_byte, read_byte-put_other}
use myos_git.Mm.Tables.{Owner, place, entry_at, UserAddress, IsForest}
use myos_git.Mm.Tables.Agree.{same_entry, same-IsForest}
use myos_git.Proc.Load.{store_byte, copy_bytes}

-- The physical address of a user's address.
abbrev pub physical : (ℕ → ℕ → ℕ) → ℕ → ℕ → ℕ
physical mem pgdir va = frame_of (entry_at mem pgdir va) * page_size + va % page_size

-- A user's address whose page is present and no table.
pub record IsData (owner : Owner) (mem : ℕ → ℕ → ℕ) (pgdir va : ℕ) : Type 0 where
  pub user : UserAddress va
  pub here : present (entry_at mem pgdir va) ≡ true
  pub data_page : owner (frame_of (entry_at mem pgdir va)) ≡ none

-- Only frames change, and no table.
pub record OnlyFrames (s t : Mm) : Type 0 where
  pub pages : t.pages ≡ s.pages
  pub phead : t.phead ≡ s.phead
  pub flushed : t.flushed ≡ s.flushed

-- After the copy the bytes stand at the addresses from `va` on, and each other byte, and each frame that none of
-- them lies in, is as it was.
pub record IsCopy (s : Mm) (n pgdir va : ℕ) (bytes : ℕ → ℕ) (t : Mm) : Type 0 where
  pub only : OnlyFrames s t
  pub stored :
      (a : ℕ)
      → va ≤ a
      → a < va + n
      → read_byte (physical s.mem pgdir a) t.mem ≡ bytes (a - va) % 2 ^ 8
  pub others :
      (c : ℕ)
      → ((a : ℕ) → va ≤ a → a < va + n → c ≢ physical s.mem pgdir a)
      → read_byte c t.mem ≡ read_byte c s.mem
  pub frames :
      (q : ℕ)
      → ((a : ℕ) → va ≤ a → a < va + n → q ≢ frame_of (entry_at s.mem pgdir a))
      → t.mem q ≡ s.mem q

module _ (owner : Owner) (pgdir : ℕ) (root : owner pgdir ≡ some (place pgdir 0 0)) where
  -- One byte.
  abbrev after_byte : ℕ → ℕ → Mm → Mm
  after_byte va b s = record s { mem = put_byte (physical s.mem pgdir va) b s.mem }

  after_byte-kept :
      (va b q : ℕ) (s : Mm)
      → q ≢ frame_of (entry_at s.mem pgdir va)
      → (after_byte va b s).mem q ≡ s.mem q
  unfolding put_byte
  after_byte-kept va b q s ne =
      let f : physical s.mem pgdir va / page_size ≡ frame_of (entry_at s.mem pgdir va) =
        omega arith in
      ground (arith, f, ne)

  module _ (va b : ℕ) (s : Mm) (forest : IsForest owner s.mem)
      (d : IsData owner s.mem pgdir va) where
    after_byte-entry :
        (va' : ℕ)
        → UserAddress va'
        → entry_at (after_byte va b s).mem pgdir va' ≡ entry_at s.mem pgdir va'
    after_byte-entry va' user' =
        same_entry owner s (after_byte va b s) (frame_of (entry_at s.mem pgdir va)) d.data_page
          (λ q ne. after_byte-kept va b q s ne) pgdir va' forest root user'

    after_byte-IsForest : IsForest owner (after_byte va b s).mem
    after_byte-IsForest =
        same-IsForest owner s (after_byte va b s) (frame_of (entry_at s.mem pgdir va)) d.data_page
          (λ q ne. after_byte-kept va b q s ne) forest

    after_byte-IsData :
        (va' : ℕ) → IsData owner s.mem pgdir va' → IsData owner (after_byte va b s).mem pgdir va'
    after_byte-IsData va' e =
        let same = after_byte-entry va' e.user in
        record {
          user = e.user;
          here = ap present same ∙ e.here;
          data_page = ap (λ w. owner (frame_of w)) same ∙ e.data_page;
        }

    after_byte-physical :
        (va' : ℕ)
        → IsData owner s.mem pgdir va'
        → physical (after_byte va b s).mem pgdir va' ≡ physical s.mem pgdir va'
    after_byte-physical va' e =
        ap (λ w. frame_of w * page_size + va' % page_size) (after_byte-entry va' e.user)

    store_byte-eq : store_byte pgdir va b s ≡ ok (pos 0) (after_byte va b s)
    unfolding store_byte
    store_byte-eq = rw d.here refl

  -- The first byte and then the others.
  add-IsCopy :
      (n va : ℕ) (bytes : ℕ → ℕ) (s : Mm) (forest : IsForest owner s.mem)
      (data_pages : (a : ℕ) → va ≤ a → a < va + suc n → IsData owner s.mem pgdir a)
      → ((a c : ℕ)
          → va ≤ a
          → a < c
          → c < va + suc n
          → physical s.mem pgdir a ≢ physical s.mem pgdir c)
      → (u : Mm) → IsCopy (after_byte va (bytes 0) s) n pgdir (va + 1) (λ i. bytes (i + 1)) u
      → IsCopy s (suc n) pgdir va bytes u
  add-IsCopy n va bytes s forest data_pages apart u h =
      let d = data_pages va (omega arith) (omega arith) in
      let t = after_byte va (bytes 0) s in
      let e : (a : ℕ) → va ≤ a → a < va + suc n → physical t.mem pgdir a ≡ physical s.mem pgdir a =
        λ a from to. after_byte-physical va (bytes 0) s forest d a (data_pages a from to) in
      let first : read_byte (physical s.mem pgdir va) u.mem ≡ bytes 0 % 2 ^ 8 =
        h.others (physical s.mem pgdir va) (λ a from to same.
          apart va a (omega arith) (omega arith) (omega arith)
            (same ∙ e a (omega arith) (omega arith)))
        ∙ read_byte-put_byte (physical s.mem pgdir va) (bytes 0) s.mem in
      record {
        only = record { pages = h.only.pages; phead = h.only.phead; flushed = h.only.flushed };
        stored = λ a from to. elim (Bool-cases (a == va)) [
          | inl hit ↦
              let here : va ≡ a = sym ((==_iff _ _).0 hit) in
              let zero_lem : 0 ≡ a - va = omega arith in
              ap (λ c. read_byte (physical s.mem pgdir c) u.mem) (sym here)
              ∙ first
              ∙ ap (λ (i : ℕ). bytes i % 2 ^ 8) zero_lem
          | inr other ↦
              let ne : a ≢ va = ground (arith, other) in
              let place : a - (va + 1) + 1 ≡ a - va = omega arith in
              ap (λ c. read_byte c u.mem) (sym (e a from to))
              ∙ h.stored a (omega arith) (omega arith)
              ∙ ap (λ (i : ℕ). bytes i % 2 ^ 8) place
        ];
        others = λ c out.
            h.others c (λ a from to same.
              out a (omega arith) (omega arith) (same ∙ e a (omega arith) (omega arith)))
            ∙ read_byte-put_other c (physical s.mem pgdir va) (bytes 0) s.mem
                (out va (omega arith) (omega arith));
        frames = λ q out.
            h.frames q (λ a from to same. out a (omega arith) (omega arith) (
              same
              ∙ ap frame_of (
                  after_byte-entry va (bytes 0) s forest d a
                    (data_pages a (omega arith) (omega arith)).user)))
            ∙ after_byte-kept va (bytes 0) q s (out va (omega arith) (omega arith));
      }

  pub copy_bytes-IsCopy :
      (n va : ℕ) (bytes : ℕ → ℕ) (s : Mm)
      → IsForest owner s.mem
      → ((a : ℕ) → va ≤ a → a < va + n → IsData owner s.mem pgdir a)
      → ((a c : ℕ) → va ≤ a → a < c → c < va + n → physical s.mem pgdir a ≢ physical s.mem pgdir c)
      → Returns (λ r t. IsCopy s n pgdir va bytes t) (copy_bytes n pgdir va bytes s)
  unfolding copy_bytes
  copy_bytes-IsCopy zero va bytes s forest data_pages apart = returns record {
    only = record { pages = refl; phead = refl; flushed = refl };
    stored = λ a from to. absurd (omega arith);
    others = λ c out. refl;
    frames = λ q out. refl;
  }
  copy_bytes-IsCopy (suc n) va bytes s forest data_pages apart =
      let d = data_pages va (omega arith) (omega arith) in
      let t = after_byte va (bytes 0) s in
      let e : (a : ℕ) → va ≤ a → a < va + suc n → physical t.mem pgdir a ≡ physical s.mem pgdir a =
        λ a from to. after_byte-physical va (bytes 0) s forest d a (data_pages a from to) in
      rw (store_byte-eq va (bytes 0) s forest d) (
        Returns-map
          (copy_bytes-IsCopy n (va + 1) (λ i. bytes (i + 1)) t
            (after_byte-IsForest va (bytes 0) s forest d)
            (λ a from to.
              after_byte-IsData va (bytes 0) s forest d a
                (data_pages a (omega arith) (omega arith)))
            (λ a c from less to same.
              apart a c (omega arith) less (omega arith)
                (sym (e a (omega arith) (omega arith)) ∙ same ∙ e c (omega arith) (omega arith))))
          (λ r u h. add-IsCopy n va bytes s forest data_pages apart u h))
