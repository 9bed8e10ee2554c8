-- ===== src/Proc/Load/Kept.antt =====
-- What a user finds at an address, and what keeps it.
use mathlib.Core.Path.{subst, fun_ext}
use myos_git.Prelude.{
  ℕ, zero, suc, ◌+◌, ◌*◌, ◌/◌, ◌%◌, ◌^◌, ◌≤◌, ◌<◌, ◌≡◌, ◌⊎◌, sym, ap, ◌∙◌, inl, inr, true, false,
  none, some, List, [], ◌∷◌, arith, ◌==◌, Bool-cases, has, All, bit_and, if◌then◌else◌,
}
use myos_git.Mm.State.{Mm, Page}
use myos_git.Mm.{frame_of, level_index, page_size, present}
use myos_git.Mm.Bytes.{read_byte, byte_of}
use myos_git.Mm.Frames.{IsFree, Chain, Unused}
use myos_git.Mm.Tables.{Owner, place, entry_at, entry_from}
use myos_git.Mm.Walk.Range.{IsRange, low-UserAddress}
use myos_git.Proc.Load.Copied.{physical, OnlyFrames}

-- The byte that a user finds at an address, in a page that is neither free nor a table.
pub record IsAt (owner : Owner) (s : Mm) (xs : List ℕ) (pgdir a b : ℕ) : Type 0 where
  pub low : a < 2 ^ 47
  pub here : present (entry_at s.mem pgdir a) ≡ true
  pub data_page : owner (frame_of (entry_at s.mem pgdir a)) ≡ none
  pub taken : has (frame_of (entry_at s.mem pgdir a)) xs ≡ false
  pub byte : read_byte (physical s.mem pgdir a) s.mem ≡ b

-- The page of an address.
abbrev pub base_of : ℕ → ℕ
base_of a = a / 4096 * 4096

level_index-page : (m a c : ℕ) → m < 4 → a / 4096 ≡ c / 4096 → level_index m a ≡ level_index m c
unfolding level_index
level_index-page zero a c h e = ap (λ (x : ℕ). bit_and x 0x1ff) e
level_index-page (suc zero) a c h e =
    let up : a / 2 ^ 21 ≡ c / 2 ^ 21 = omega arith in ap (λ (x : ℕ). bit_and x 0x1ff) up
level_index-page (suc (suc zero)) a c h e =
    let up : a / 2 ^ 30 ≡ c / 2 ^ 30 = omega arith in ap (λ (x : ℕ). bit_and x 0x1ff) up
level_index-page (suc (suc (suc zero))) a c h e =
    let up : a / 2 ^ 39 ≡ c / 2 ^ 39 = omega arith in ap (λ (x : ℕ). bit_and x 0x1ff) up
level_index-page (suc (suc (suc (suc m)))) a c h e = absurd (omega arith)

-- The addresses of a page have one entry.
pub entry_from-page :
    (n : ℕ) (mem : ℕ → ℕ → ℕ) (f a c : ℕ)
    → n < 4
    → a / 4096 ≡ c / 4096
    → entry_from n mem f a ≡ entry_from n mem f c
unfolding entry_from
entry_from-page zero mem f a c h e = ap (mem f) (level_index-page 0 a c (omega arith) e)
entry_from-page (suc n) mem f a c h e = rw (level_index-page (suc n) a c h e) (
    ap (λ (x : ℕ). if present (mem f (level_index (suc n) c)) then x else 0)
      (entry_from-page n mem (frame_of (mem f (level_index (suc n) c))) a c (omega arith) e))

pub has-Unused :
    (pages : ℕ → Page) (xs : List ℕ) (p : ℕ) → All (Unused pages) xs → has p xs ≡ true → p < 2 ^ 52
has-Unused pages [] p u h = absurd (ground (arith, h))
has-Unused pages (x ∷ xs) p u h = elim (Bool-cases (x == p)) [
  | inl same ↦ ground (arith, same, u)
  | inr other ↦ has-Unused pages xs p u.1 (ground (arith, h, other))
]

pub only-IsFree : (s t : Mm) (xs : List ℕ) → OnlyFrames s t → IsFree s xs → IsFree t xs
only-IsFree s t xs o w = record {
  chain =
      subst (λ pages. Chain pages t.phead xs) (sym o.pages)
        (subst (λ h. Chain s.pages h xs) (sym o.phead) w.chain);
  distinct = w.distinct;
  unused = subst (λ pages. All (Unused pages) xs) (sym o.pages) w.unused;
}

pub read_byte-agree :
    (a : ℕ) (mem mem' : ℕ → ℕ → ℕ)
    → mem' (a / 4096) ≡ mem (a / 4096)
    → read_byte a mem' ≡ read_byte a mem
unfolding read_byte
read_byte-agree a mem mem' e = ap (λ (w : ℕ → ℕ). byte_of (a % 8) (w (a % 4096 / 8))) e

-- A step that keeps the entry and the frame of an address keeps the byte there.
pub IsAt-kept :
    (owner owner' : Owner) (s t : Mm) (xs left : List ℕ) (pgdir a b : ℕ)
    → IsAt owner s xs pgdir a b
    → entry_at t.mem pgdir a ≡ entry_at s.mem pgdir a
    → let q = frame_of (entry_at s.mem pgdir a) in
      owner' q ≡ none → has q left ≡ false → t.mem q ≡ s.mem q → IsAt owner' t left pgdir a b
IsAt-kept owner owner' s t xs left pgdir a b at e data_page out kept =
    let c = physical s.mem pgdir a in
    let frame : c / 4096 ≡ frame_of (entry_at s.mem pgdir a) = omega arith in
    record {
      low = at.low;
      here = ap present e ∙ at.here;
      data_page = ap (λ w. owner' (frame_of w)) e ∙ data_page;
      taken = ap (λ w. has (frame_of w) left) e ∙ out;
      byte =
          ap (λ (w : ℕ). read_byte (frame_of w * page_size + a % page_size) t.mem) e
          ∙ read_byte-agree c s.mem t.mem (ap t.mem frame ∙ kept ∙ sym (ap s.mem frame))
          ∙ at.byte;
    }

-- New pages in a range keep what stands outside it.
module _ (owner : Owner) (s : Mm) (xs : List ℕ) (pgdir va flags flag n : ℕ) (t : Mm)
    (r : IsRange owner s xs pgdir va flags flag n t) (root : owner pgdir ≡ some (place pgdir 0 0))
    (aligned : va % 4096 ≡ 0) (high : va + n * 4096 < 2 ^ 47) where
  pub range_entry :
      (a : ℕ)
      → a < 2 ^ 47
      → (a < va) ⊎ (va + n * 4096 ≤ a)
      → entry_at t.mem pgdir a ≡ entry_at s.mem pgdir a
  range_entry a low out = r.others pgdir a root (low-UserAddress a low) (
      inr (λ k below same. elim out [
        | inl under ↦ absurd (omega arith)
        | inr over ↦ absurd (omega arith)
      ]))

  pub range-kept :
      (a b : ℕ)
      → IsAt owner s xs pgdir a b
      → (a < va) ⊎ (va + n * 4096 ≤ a)
      → IsAt r.owner' t r.left pgdir a b
  range-kept a b at out =
      let q = frame_of (entry_at s.mem pgdir a) in
      IsAt-kept owner r.owner' s t xs r.left pgdir a b at (range_entry a at.low out)
        (r.same_owner q at.taken ∙ at.data_page) (r.fewer q at.taken)
        (fun_ext (λ j. r.frames q j at.taken at.data_page))
