-- ===== src/Mm/Frames/Boot.antt =====
-- The list of free pages that `init_page` builds.
use myos_git.Prelude.{
  ℕ, zero, suc, ◌+◌, ◌-◌, ◌/◌, ◌≤◌, ◌<◌, ◌^◌, ◌≡◌, refl, sym, ap, ◌∙◌, ◌⊎◌, inl, inr, false, Option,
  none, List, [], ◌∷◌, ◌++◌, arith, has, Distinct, All, range,
}
use myos_git.Prelude.Int.{pos}
use mathlib.Core.Path.{subst}
use myos_git.Mm.State.{Mm, Page}
use myos_git.Mm.{init_page, link_down, count_all, page_size}
use myos_git.Mm.Frames.{Chain, Chain-push, IsFree, Unused, Unused-update}

-- The pages lo, …, lo + n - 1 in front of `xs`, in the order in which they are linked.
abbrev stacked : ℕ → ℕ → List ℕ → List ℕ
stacked lo zero xs = xs
stacked lo (suc n) xs = stacked lo n ((lo + n) ∷ xs)

range-snoc : (lo n : ℕ) (xs : List ℕ) → range lo (suc n) ++ xs ≡ range lo n ++ (lo + n) ∷ xs
range-snoc lo zero xs = ap (λ a. a ∷ xs) (omega arith)
range-snoc lo (suc n) xs =
    ap (λ l. lo ∷ l) (range-snoc (lo + 1) n xs ∙ ap (λ a. range (lo + 1) n ++ a ∷ xs) (omega arith))

stacked-eq-append : (lo n : ℕ) (xs : List ℕ) → stacked lo n xs ≡ range lo n ++ xs
stacked-eq-append lo zero xs = refl
stacked-eq-append lo (suc n) xs = stacked-eq-append lo n ((lo + n) ∷ xs) ∙ sym (range-snoc lo n xs)

-- No element of `xs` lies in lo, …, hi - 1.
abbrev Avoids : ℕ → ℕ → List ℕ → Type 0
Avoids lo hi xs = (q : ℕ) → lo ≤ q → q < hi → has q xs ≡ false

record IsLinked (pages : ℕ → Page) (h : Option ℕ) (xs : List ℕ) : Type 0 where
  chain : Chain pages h xs
  distinct : Distinct xs
  unused : All (Unused pages) xs

link_down-IsLinked :
    (lo n : ℕ) (pages : ℕ → Page) (h : Option ℕ) (xs : List ℕ)
    → lo + n ≤ 2 ^ 52
    → Avoids lo (lo + n) xs
    → IsLinked pages h xs
    → IsLinked (link_down lo n pages h).0 (link_down lo n pages h).1 (stacked lo n xs)
unfolding link_down
link_down-IsLinked lo zero pages h xs small out l = l
link_down-IsLinked lo (suc n) pages h xs small out l =
    link_down-IsLinked lo n _ _ ((lo + n) ∷ xs) (omega arith)
      (λ q from to. ground (arith, out q from (omega arith)))
      (record {
        chain = Chain-push pages h (lo + n) (pos 0) xs here l.chain;
        distinct = (here, l.distinct);
        unused = (ground arith, Unused-update pages (lo + n) _ xs here l.unused);
      })
  where
    here : has (lo + n) xs ≡ false
    here = out (lo + n) (omega arith) (omega arith)

pub has-range : (q lo n : ℕ) → (q < lo) ⊎ (lo + n ≤ q) → has q (range lo n) ≡ false
has-range q lo zero h = refl
has-range q lo (suc n) h = ground (arith, has-range q (lo + 1) n)

pub has-append :
    (q : ℕ) (xs ys : List ℕ) → has q xs ≡ false → has q ys ≡ false → has q (xs ++ ys) ≡ false
has-append q [] ys h k = k
has-append q (x ∷ xs) ys h k = ground (arith, has-append q xs ys)

link_down-range :
    (lo n : ℕ) (pages : ℕ → Page) (h : Option ℕ) (xs : List ℕ)
    → lo + n ≤ 2 ^ 52
    → Avoids lo (lo + n) xs
    → IsLinked pages h xs
    → IsLinked (link_down lo n pages h).0 (link_down lo n pages h).1 (range lo n ++ xs)
link_down-range lo n pages h xs small out l =
    subst (IsLinked _ _) (stacked-eq-append lo n xs)
      (link_down-IsLinked lo n pages h xs small out l)

-- The free pages after the boot: 9 to 159, 1 to 7, and those from the end of the kernel on.
abbrev pub boot_list : ℕ → ℕ → List ℕ
boot_list npages used = range 9 151 ++ (range 1 7 ++ range used (npages - used))

append-nil_lem : (xs : List ℕ) → xs ++ [] ≡ xs
append-nil_lem [] = refl
append-nil_lem (x ∷ xs) = ap (λ l. x ∷ l) (append-nil_lem xs)

module _ (used n : ℕ) (pages : ℕ → Page) (ge : 160 ≤ used) (small : used + n ≤ 2 ^ 52) where
  abbrev high : (ℕ → Page) × Option ℕ
  high = link_down used n pages none

  high-IsLinked : IsLinked high.0 high.1 (range used n)
  high-IsLinked = subst (IsLinked high.0 high.1) (append-nil_lem (range used n)) (
      link_down-range used n pages none [] small (λ q _ _. refl)
        (record { chain = refl; distinct = tt; unused = tt }))

  abbrev low : (ℕ → Page) × Option ℕ
  low = link_down 1 7 high.0 high.1

  low-IsLinked : IsLinked low.0 low.1 (range 1 7 ++ range used n)
  low-IsLinked =
      link_down-range 1 7 high.0 high.1 (range used n) (omega arith)
        (λ q from to. has-range q used n (inl (omega arith))) high-IsLinked

  all-IsLinked :
      IsLinked
        (link_down 9 151 low.0 low.1).0
        (link_down 9 151 low.0 low.1).1
        (range 9 151 ++ (range 1 7 ++ range used n))
  all-IsLinked =
      link_down-range 9 151 low.0 low.1 (range 1 7 ++ range used n) (omega arith)
        (λ q from to.
          has-append q (range 1 7) (range used n) (has-range q 1 7 (inr (omega arith)))
            (has-range q used n (inl (omega arith))))
        low-IsLinked

-- `init_page` on any memory: with the kernel's end above the low megabyte and inside the memory,
-- the free pages are exactly 9 to 159, 1 to 7 and those from the kernel's end on, in this order;
-- so pages 0, 8 (the trampoline's), and 160 to the kernel's end are not free.
pub init_page-IsFree :
    (npages kused_mem : ℕ) (s : Mm)
    → let used = (kused_mem + page_size - 1) / page_size in
      160 ≤ used
      → used ≤ npages
      → npages ≤ 2 ^ 52
      → IsFree (init_page npages kused_mem s) (boot_list npages used)
unfolding init_page
init_page-IsFree npages kused_mem s ge le small =
    let used = (kused_mem + page_size - 1) / page_size in
    let l = all-IsLinked used (npages - used) (count_all npages s.pages) ge (omega arith) in
    record { chain = l.chain; distinct = l.distinct; unused = l.unused }
