-- ===== src/Mm/Startup/Laid.antt =====
-- Where `init_mem` puts the kernel's tables, and which pages it leaves free.
use mathlib.Core.Path.{fun_ext, subst}
use myos_git.Prelude.{
  ℕ, ◌+◌, ◌-◌, ◌*◌, ◌/◌, ◌%◌, ◌^◌, ◌≤◌, ◌<◌, ◌≡◌, refl, ap, ◌∙◌, inl, inr, false, List, ◌++◌, arith,
  bit_or, has, range,
}
use myos_git.Prelude.Bits.{bit_or_fields, bit_or_comm}
use myos_git.Port.{Event, Device}
use myos_git.Mm.State.{Mm}
use myos_git.Mm.Frames.{IsFree}
use myos_git.Mm.Frames.Boot.{boot_list, init_page-IsFree, has-append, has-range}
use myos_git.Mm.{init_page, page_size}
use myos_git.Mm.Startup.{
  detect_memsize, kbase, page_up, Layout, layout, frame_at, clear_procs, init_tables, fill_tables,
  init_mem,
}

-- The tables one behind the other, from the end of the image on.
pub record IsBehind (end npages : ℕ) (l : Layout) : Type 0 where
  pub count : l.npages ≡ npages
  pub aligned :
      (l.kpgdir % 4096 ≡ 0)
      × (l.pages_at % 4096 ≡ 0)
      × (l.procs_at % 4096 ≡ 0)
      × (l.kused_mem % 4096 ≡ 0)
  pub image : end ≤ l.kpgdir
  pub root : l.kpgdir + 4096 ≤ l.pages_at
  pub pages : l.pages_at + 16 * npages ≤ l.procs_at
  pub procs : l.procs_at + 464 * 1024 ≡ l.kused_mem
  pub tight : l.kused_mem ≤ end + 3 * 4096 + 4096 + 16 * npages + 464 * 1024

two_bytes : (a b : ℕ) → a < 2 ^ 8 → b < 2 ^ 8 → bit_or a (b * 2 ^ 8) < 2 ^ 16
two_bytes a b h k = omega (arith, bit_or_comm a (b * 2 ^ 8), bit_or_fields 8 b a h)

detect_memsize-small : (d : Device) (log : List Event) → (detect_memsize d log).0 < 2 ^ 16
unfolding detect_memsize
detect_memsize-small d log = two_bytes _ _ (omega arith) (omega arith)

page_up_lem :
    (a : ℕ)
    → a < 2 ^ 64 - 2 ^ 20
    → (a ≤ page_up a) × (page_up a < a + 4096) × (page_up a % 4096 ≡ 0)
unfolding page_up
page_up_lem a h = (omega arith, omega arith, omega arith)

layout-IsBehind :
    (end size : ℕ)
    → size < 2 ^ 16
    → end < 2 ^ 64 - 2 ^ 30
    → IsBehind end (4 * size) (layout end size)
unfolding layout
layout-IsBehind end size small low =
    let n : size * 2 ^ 2 % 2 ^ 32 ≡ 4 * size = omega arith in
    let (a0, a1, a2) = page_up_lem end (omega arith) in
    let a : (page_up end + 4096) % 2 ^ 64 ≡ page_up end + 4096 = omega arith in
    let (b0, b1, b2) = page_up_lem (page_up end + 4096) (omega arith) in
    let pages_at = page_up (page_up end + 4096) in
    let b : (pages_at + 16 * (4 * size)) % 2 ^ 64 ≡ pages_at + 16 * (4 * size) = omega arith in
    let (c0, c1, c2) = page_up_lem (pages_at + 16 * (4 * size)) (omega arith) in
    let procs_at = page_up (pages_at + 16 * (4 * size)) in
    let c : (procs_at + 464 * 1024) % 2 ^ 64 ≡ procs_at + 464 * 1024 = omega arith in
    rw (n, a, b, c)
      (record {
        count = refl;
        aligned = (a2, b2, c2, omega (arith, c2));
        image = a0;
        root = b0;
        pages = c0;
        procs = refl;
        tight = omega (arith, a1, b1, c1);
      })

-- The tables in their place, the free pages, and what the tables hold.
pub record IsLaidOut (boot_pgkdir trampoline_data : ℕ → ℕ) (end npages : ℕ) (l : Layout) (t : Mm)
    : Type 0 where
  pub behind : IsBehind end npages l
  pub free : IsFree t (boot_list l.npages (frame_at l.kused_mem))
  pub kept :
      (q : ℕ)
      → 160 ≤ q
      → q < frame_at l.kused_mem
      → has q (boot_list l.npages (frame_at l.kused_mem)) ≡ false
  pub root : t.mem (frame_at l.kpgdir) 511 ≡ boot_pgkdir 511
  pub trampoline : t.mem 8 ≡ trampoline_data
  pub procs :
      (f i : ℕ)
      → l.procs_at ≤ kbase + 4096 * f
      → kbase + 4096 * f < l.procs_at + 464 * 1024
      → t.mem f i ≡ 0

boot_list-kept : (npages used q : ℕ) → 160 ≤ q → q < used → has q (boot_list npages used) ≡ false
boot_list-kept npages used q low below =
    has-append q (range 9 151) (range 1 7 ++ range used (npages - used))
      (has-range q 9 151 (inr (omega arith)))
      (has-append q (range 1 7) (range used (npages - used)) (has-range q 1 7 (inr (omega arith)))
        (has-range q used (npages - used) (inl below)))

init_page-mem : (npages used : ℕ) (s : Mm) → (init_page npages used s).mem ≡ s.mem
unfolding init_page
init_page-mem npages used s = refl

-- A frame of the kernel's addresses.
frame_lem : (va : ℕ) → kbase ≤ va → va < 2 ^ 64 → va % 4096 ≡ 0 → kbase + 4096 * frame_at va ≡ va
unfolding frame_at
frame_lem va low high aligned = omega arith

module _ (boot_pgkdir trampoline_data : ℕ → ℕ) (end npages : ℕ) (l : Layout) (s : Mm)
    (b : IsBehind end npages l) (above : kbase + 0xa0000 ≤ end) (below : l.kused_mem < 2 ^ 64) where
  at_root : kbase + 4096 * frame_at l.kpgdir ≡ l.kpgdir
  at_root =
      frame_lem l.kpgdir (omega (arith, b.image)) (omega (arith, b.root, b.pages, b.procs))
        (b.aligned.0)

  at_procs : kbase + 4096 * frame_at l.procs_at ≡ l.procs_at
  at_procs =
      frame_lem l.procs_at (omega (arith, b.image, b.root, b.pages)) (omega (arith, b.procs))
        (b.aligned.2)

  root_above : 160 ≤ frame_at l.kpgdir
  root_above = omega (arith, at_root, b.image)

  procs_above : frame_at l.kpgdir < frame_at l.procs_at
  procs_above = omega (arith, at_root, at_procs, b.root, b.pages)

  tables-root :
      (init_tables boot_pgkdir trampoline_data l s).mem (frame_at l.kpgdir) 511 ≡ boot_pgkdir 511
  unfolding init_tables clear_procs
  tables-root = ground (arith, root_above, procs_above)

  tables-trampoline : (init_tables boot_pgkdir trampoline_data l s).mem 8 ≡ trampoline_data
  unfolding init_tables clear_procs
  tables-trampoline = fun_ext λ i. ground (arith, root_above, procs_above)

  tables-procs :
      (f i : ℕ)
      → l.procs_at ≤ kbase + 4096 * f
      → kbase + 4096 * f < l.procs_at + 464 * 1024
      → (init_tables boot_pgkdir trampoline_data l s).mem f i ≡ 0
  unfolding init_tables clear_procs
  tables-procs f i from to =
      let first : frame_at l.procs_at ≤ f = omega (arith, at_procs) in
      let last : f < frame_at l.procs_at + 116 = omega (arith, at_procs) in
      ground (arith, first, last)

  used_lem :
      ((l.kused_mem + 2 ^ 64 - kbase) % 2 ^ 64 + page_size - 1) / page_size ≡ frame_at l.kused_mem
  unfolding frame_at
  used_lem = omega (arith, b.image, b.root, b.pages, b.procs, b.aligned.3)

  at_used : kbase + 4096 * frame_at l.kused_mem ≡ l.kused_mem
  at_used =
      frame_lem l.kused_mem (omega (arith, b.image, b.root, b.pages, b.procs)) below b.aligned.3

  fill_tables-IsLaidOut :
      l.kused_mem ≤ kbase + 4096 * l.npages
      → l.npages < 2 ^ 32
      → IsLaidOut boot_pgkdir trampoline_data end npages l
          (fill_tables boot_pgkdir trampoline_data l s)
  unfolding fill_tables
  fill_tables-IsLaidOut room few =
      let used = (l.kused_mem + 2 ^ 64 - kbase) % 2 ^ 64 in
      let t = init_tables boot_pgkdir trampoline_data l s in
      let kept = init_page-mem l.npages used t in
      let last : kbase + 4096 * frame_at l.kused_mem ≡ l.kused_mem = at_used in
      record {
        behind = b;
        free =
            subst (λ u. IsFree (init_page l.npages used t) (boot_list l.npages u)) used_lem
              (init_page-IsFree l.npages used t
                (omega (arith, used_lem, at_used, b.image, b.root, b.pages, b.procs))
                (omega (arith, used_lem, at_used)) (omega arith));
        kept = λ q from to. boot_list-kept l.npages (frame_at l.kused_mem) q from to;
        root = ap (λ m. m (frame_at l.kpgdir) 511) kept ∙ tables-root;
        trampoline = ap (λ m. m 8) kept ∙ tables-trampoline;
        procs = λ f i from to. ap (λ m. m f i) kept ∙ tables-procs f i from to;
      }

-- On a machine whose image lies above the low megabyte's 640 KB and whose memory, by the detected size, holds it and
-- the tables, `init_mem` puts the root table, the pages' table and the processes one behind the other, each at a
-- page's start, with the root's last entry, the trampoline's code and the processes cleared in them. The free
-- pages are those of `init_page` behind them, so no page from 640 KB to the tables' end is free.
pub init_mem-IsLaidOut :
    (d : Device) (end : ℕ) (boot_pgkdir trampoline_data : ℕ → ℕ) (log : List Event) (s : Mm)
    → let npages = 4 * (detect_memsize d log).0 in
      kbase + 0xa0000 ≤ end
      → end < kbase + 2 ^ 30
      → end + 16 * npages + 2 ^ 20 ≤ kbase + 4096 * npages
      → let r = init_mem d end boot_pgkdir trampoline_data (log, s) in
        IsLaidOut boot_pgkdir trampoline_data end npages r.0 r.2
unfolding init_mem
init_mem-IsLaidOut d end boot_pgkdir trampoline_data log s above below room =
    let size = (detect_memsize d log).0 in
    let b = layout-IsBehind end size (detect_memsize-small d log) (omega arith) in
    fill_tables-IsLaidOut boot_pgkdir trampoline_data end (4 * size) (layout end size) s b above
      (omega (arith, b.tight, detect_memsize-small d log)) (omega (arith, b.tight, b.count))
      (omega (arith, b.count, detect_memsize-small d log))
