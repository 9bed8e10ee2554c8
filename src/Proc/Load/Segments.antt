-- ===== src/Proc/Load/Segments.antt =====
-- One segment of a program: `memmap` and `memcpy`, as `load_img` calls them.
use myos_git.Prelude.{
  ℕ, ◌+◌, ◌-◌, ◌*◌, ◌/◌, ◌%◌, ◌^◌, ◌≤◌, ◌<◌, ◌≡◌, ◌≢◌, ◌⊎◌, refl, sym, ap, ◌∙◌, some, List, arith,
  has, length,
}
use myos_git.Prelude.Result.{and_then, Returns, Returns-and_then, Returns-map}
use myos_git.Mm.State.{Mm}
use myos_git.Mm.{frame_of, page_size, present}
use myos_git.Mm.Bytes.{read_byte}
use myos_git.Mm.Tables.{Owner, Place, place, entry_at, table_entry, frame_of-entry, present-entry}
use myos_git.Mm.Tables.Agree.{agree-IsForest, agree-entry_from}
use myos_git.Mm.Walk.{IsTables, Extends}
use myos_git.Mm.Walk.Range.{IsRange, low-UserAddress}
use myos_git.Proc.Space.{memmap}
use myos_git.Proc.Space.Range.{pages_of, memmap-IsRange}
use myos_git.Proc.Load.{copy_bytes}
use myos_git.Proc.Load.Copied.{physical, IsData, IsCopy, copy_bytes-IsCopy}
use myos_git.Proc.Load.Kept.{
  IsAt, base_of, entry_from-page, has-Unused, only-IsFree, IsAt-kept, range_entry, range-kept,
}

-- After a segment of `n` bytes at `va`: the bytes stand there, and what stood at other pages still does.
pub record IsSegment (owner : Owner) (s : Mm) (xs : List ℕ) (pgdir va n : ℕ) (bytes : ℕ → ℕ)
    (t : Mm) : Type 0 where
  pub owner' : Owner
  pub left : List ℕ
  pub tables : IsTables owner' t left
  pub extends : Extends owner owner'
  pub enough : length xs ≤ length left + 4 * pages_of n
  pub loaded : (a : ℕ) → va ≤ a → a < va + n → IsAt owner' t left pgdir a (bytes (a - va) % 2 ^ 8)
  pub kept :
      (a b : ℕ)
      → IsAt owner s xs pgdir a b
      → (a < base_of va) ⊎ (base_of va + pages_of n * 4096 ≤ a)
      → IsAt owner' t left pgdir a b

module _ (owner : Owner) (s : Mm) (xs : List ℕ) (pgdir va n : ℕ) (t : Mm) (w : IsTables owner s xs)
    (root : owner pgdir ≡ some (place pgdir 0 0)) (high : base_of va + pages_of n * 4096 < 2 ^ 32)
    (inside : va + n ≤ base_of va + pages_of n * 4096)
    (r : IsRange owner s xs pgdir (base_of va) 0 7 (pages_of n) t) where
  root_after : r.owner' pgdir ≡ some (place pgdir 0 0)
  root_after = r.extends pgdir (place pgdir 0 0) root

  -- The page in the range that an address lies in.
  abbrev page_no : ℕ → ℕ
  page_no a = (a - base_of va) / 4096

  entry_lem :
      (a : ℕ) → va ≤ a → a < va + n → entry_at t.mem pgdir a ≡ table_entry (r.page (page_no a))
  entry_lem a from to =
      entry_from-page 3 t.mem pgdir a (base_of va + page_no a * page_size) (omega arith)
        (omega arith)
      ∙ r.mapped (page_no a) (omega arith)

  page_small : (k : ℕ) → k < pages_of n → r.page k < 2 ^ 52
  page_small k below = has-Unused s.pages xs (r.page k) w.free.unused (r.taken k below).0

  frame_lem : (a : ℕ) → va ≤ a → a < va + n → frame_of (entry_at t.mem pgdir a) ≡ r.page (page_no a)
  frame_lem a from to =
      ap frame_of (entry_lem a from to)
      ∙ frame_of-entry (r.page (page_no a)) (page_small (page_no a) (omega arith))

  range-IsData : (a : ℕ) → va ≤ a → a < va + n → IsData r.owner' t.mem pgdir a
  range-IsData a from to = record {
    user = low-UserAddress a (omega arith);
    here =
        ap present (entry_lem a from to)
        ∙ present-entry (r.page (page_no a)) (page_small (page_no a) (omega arith));
    data_page = ap r.owner' (frame_lem a from to) ∙ r.data_page (page_no a) (omega arith);
  }

  range-apart :
      (a c : ℕ) → va ≤ a → a < c → c < va + n → physical t.mem pgdir a ≢ physical t.mem pgdir c
  range-apart a c from less to same =
      let f : r.page (page_no a) ≡ r.page (page_no c) =
        omega (arith, same, frame_lem a from (omega arith), frame_lem c (omega arith) to) in
      r.once (page_no a) (page_no c)
        (omega (arith, same, frame_lem a from (omega arith), frame_lem c (omega arith) to))
        (omega arith) f

  module _ (bytes : ℕ → ℕ) (u : Mm) (h : IsCopy t n pgdir va bytes u) where
    -- The frames written are those of the range.
    frame_kept : (q : ℕ) → ((k : ℕ) → k < pages_of n → q ≢ r.page k) → u.mem q ≡ t.mem q
    frame_kept q out =
        h.frames q (λ a from to e. out (page_no a) (omega arith) (e ∙ frame_lem a from to))

    tables_kept : (q : ℕ) (a : Place) → r.owner' q ≡ some a → u.mem q ≡ t.mem q
    tables_kept q a at = frame_kept q (λ k below e. ground (arith, at, e, r.data_page k below))

    entry_kept : (a : ℕ) → a < 2 ^ 47 → entry_at u.mem pgdir a ≡ entry_at t.mem pgdir a
    entry_kept a low =
        agree-entry_from r.owner' t.mem u.mem r.tables.forest tables_kept 3 pgdir a pgdir 0 0
          root_after refl (λ e. low-UserAddress a low)

    copy-IsTables : IsTables r.owner' u r.left
    copy-IsTables = record {
      free = only-IsFree t u r.left h.only r.tables.free;
      forest = agree-IsForest r.owner' t.mem u.mem r.tables.forest tables_kept;
      unowned = r.tables.unowned;
    }

    physical_kept : (a : ℕ) → a < 2 ^ 47 → physical u.mem pgdir a ≡ physical t.mem pgdir a
    physical_kept a low = ap (λ (w : ℕ). frame_of w * page_size + a % page_size) (entry_kept a low)

    copy-loaded :
        (a : ℕ) → va ≤ a → a < va + n → IsAt r.owner' u r.left pgdir a (bytes (a - va) % 2 ^ 8)
    copy-loaded a from to =
        let low : a < 2 ^ 47 = omega arith in
        let e = entry_kept a low in
        let d = range-IsData a from to in
        record {
          low = low;
          here = ap present e ∙ d.here;
          data_page = ap (λ w. r.owner' (frame_of w)) e ∙ d.data_page;
          taken =
              ap (λ w. has (frame_of w) r.left) e
              ∙ ap (λ q. has q r.left) (frame_lem a from to)
              ∙ (r.taken (page_no a) (omega arith)).1;
          byte = ap (λ c. read_byte c u.mem) (physical_kept a low) ∙ h.stored a from to;
        }

    copy-kept :
        (a b : ℕ)
        → IsAt owner s xs pgdir a b
        → (a < base_of va) ⊎ (base_of va + pages_of n * 4096 ≤ a)
        → IsAt r.owner' u r.left pgdir a b
    copy-kept a b at out =
        let before =
          range-kept owner s xs pgdir (base_of va) 0 7 (pages_of n) t r root (omega arith)
            (omega arith) a b at out in
        let same =
          range_entry owner s xs pgdir (base_of va) 0 7 (pages_of n) t r root (omega arith)
            (omega arith) a at.low out in
        IsAt-kept r.owner' r.owner' t u r.left r.left pgdir a b before (entry_kept a at.low)
          before.data_page before.taken
          (frame_kept (frame_of (entry_at t.mem pgdir a)) (λ k below e.
            let page : r.page k ≡ frame_of (entry_at s.mem pgdir a) = sym e ∙ ap frame_of same in
            ground (arith, at.taken, ap (λ q. has q xs) page, (r.taken k below).0)))

    copy-IsSegment : IsSegment owner s xs pgdir va n bytes u
    copy-IsSegment = record {
      owner' = r.owner';
      left = r.left;
      tables = copy-IsTables;
      extends = r.extends;
      enough = r.enough;
      loaded = copy-loaded;
      kept = copy-kept;
    }

-- A segment below 4 GB whose bytes end within the pages that `memmap` counts is loaded, with four free pages for
-- each of its pages.
pub load_range-IsSegment :
    (owner : Owner) (s : Mm) (xs : List ℕ) (pgdir va n : ℕ) (bytes : ℕ → ℕ)
    → IsTables owner s xs
    → owner pgdir ≡ some (place pgdir 0 0)
    → base_of va + pages_of n * 4096 < 2 ^ 32
    → va + n ≤ base_of va + pages_of n * 4096
    → 4 * pages_of n ≤ length xs
    → Returns
        (λ r t. IsSegment owner s xs pgdir va n bytes t)
        (and_then (memmap pgdir va n s) (λ r t. copy_bytes n pgdir va bytes t))
load_range-IsSegment owner s xs pgdir va n bytes w root high inside room =
    Returns-and_then (λ r t. copy_bytes n pgdir va bytes t)
      (memmap-IsRange owner s xs pgdir va n w root high room)
      (λ r t range.
        Returns-map
          (copy_bytes-IsCopy range.owner' pgdir (range.extends pgdir (place pgdir 0 0) root) n va
            bytes t range.tables.forest
            (range-IsData owner s xs pgdir va n t w root high inside range)
            (range-apart owner s xs pgdir va n t w root high inside range))
          (λ r' u h. copy-IsSegment owner s xs pgdir va n t w root high inside range bytes u h))
