-- ===== src/Vmx/Create/Made.antt =====
-- What `sys_create_vcpu` of kernel/amd64/vmx.c has made.
use mathlib.Core.Path.{subst}
use myos_git.Prelude.{
  ℕ, ◌%◌, ◌^◌, ◌<◌, ◌≡◌, ◌≢◌, refl, sym, ap, ◌∙◌, some, List, ◌∷◌, arith, bit_or, update, ltb,
  if◌then◌else◌,
}
use myos_git.Prelude.Int.{pos}
use myos_git.Prelude.Result.{Returns, returns}
use myos_git.Mm.State.{Mm, set_word}
use myos_git.Mm.{take_page, page2pa}
use myos_git.Mm.Frames.{IsFree, IsTaken, take_page-IsTaken, alloc_page-eq-take}
use myos_git.Mm.Tables.{Owner, place}
use myos_git.Mm.Tables.Agree.{agree-IsForest}
use myos_git.Mm.Walk.Root.{rooted-IsTables}
use myos_git.Mm.Walk.{IsTables}
use myos_git.Vmx.State.{Vmx, rdmsr}
use myos_git.Vmx.Control.{init_vmx_control}
use myos_git.Vmx.Create.{sys_create_vcpu, fill_fields, with_low, init_host_state, init_guest_state}

-- A new virtual processor: its region begins with the processor's revision and is loaded, and the guest's address
-- space is a new tree of tables that maps nothing.
pub record IsMade (owner : Owner) (v : Vmx) (p q : ℕ) (xs : List ℕ) (w : Vmx) : Type 0 where
  pub region : (w.loaded ≡ some (page2pa p)) × (w.mm.mem p 0 ≡ rdmsr 0x480 v % 2 ^ 32)
  pub rest_clear : (j : ℕ) → j ≢ 0 → w.mm.mem p j ≡ 0
  pub ept : (w.ept_pgdir ≡ some q) × (w.vmcs 0x201a ≡ bit_or (page2pa q) 0x18)
  pub tables : IsTables (update owner q (some (place q 0 0))) w.mm xs
  pub empty : (j : ℕ) → w.mm.mem q j ≡ 0
  pub registers : (i : ℕ) → i < 17 → w.allregs i ≡ 0

-- The rest writes fields, and none of them twice but those of GDTR and IDTR: what else it leaves.
record IsFilled (u w : Vmx) : Type 0 where
  mm : w.mm ≡ u.mm
  loaded : w.loaded ≡ u.loaded
  tree : w.ept_pgdir ≡ u.ept_pgdir
  allregs : w.allregs ≡ u.allregs
  pointer : w.vmcs 0x201a ≡ u.vmcs 0x201a

fill_fields-IsFilled : (vmx_exit : ℕ) (u : Vmx) → IsFilled u (fill_fields vmx_exit u)
unfolding fill_fields init_host_state init_guest_state init_vmx_control
fill_fields-IsFilled vmx_exit u = record {
  mm = refl;
  loaded = refl;
  tree = refl;
  allregs = refl;
  pointer = refl;
}

IsMade-IsFilled :
    (owner : Owner) (v : Vmx) (p q : ℕ) (xs : List ℕ) (u w : Vmx)
    → IsFilled u w
    → IsMade owner v p q xs u
    → IsMade owner v p q xs w
IsMade-IsFilled owner v p q xs u w f m = record {
  region = (f.loaded ∙ m.region.0, ap (λ s. s.mem p 0) f.mm ∙ m.region.1);
  rest_clear = λ j other. ap (λ s. s.mem p j) f.mm ∙ m.rest_clear j other;
  ept = (f.tree ∙ m.ept.0, f.pointer ∙ m.ept.1);
  tables = subst (λ s. IsTables (update owner q (some (place q 0 0))) s xs) (sym f.mm) m.tables;
  empty = λ j. ap (λ s. s.mem q j) f.mm ∙ m.empty j;
  registers = λ i below. ap (λ r. r i) f.allregs ∙ m.registers i below;
}

module _ (owner : Owner) (v : Vmx) (p q : ℕ) (xs : List ℕ) (vmx_exit : ℕ)
    (w : IsTables owner v.mm (p ∷ q ∷ xs)) where
  abbrev first : Mm
  first = take_page 1 p v.mm

  first-IsTaken : IsTaken v.mm 1 p (q ∷ xs) first
  first-IsTaken = take_page-IsTaken 1 p (q ∷ xs) w.free

  abbrev word : ℕ
  word = with_low (rdmsr 0x480 v % 2 ^ 32) (first.mem p 0)

  abbrev region : Mm
  region = set_word p 0 word first

  region-IsFree : IsFree region (q ∷ xs)
  region-IsFree = record {
    chain = first-IsTaken.free.chain;
    distinct = first-IsTaken.free.distinct;
    unused = first-IsTaken.free.unused;
  }

  abbrev second : Mm
  second = take_page 1 q region

  second-IsTaken : IsTaken region 1 q xs second
  second-IsTaken = take_page-IsTaken 1 q xs region-IsFree

  p-ne-q : p ≢ q
  p-ne-q e = ground (arith, w.free.distinct, e)

  -- Frames but for the two.
  others_kept : (f : ℕ) → f ≢ p → f ≢ q → second.mem f ≡ v.mm.mem f
  others_kept f np nq =
      (second-IsTaken.others f nq).1 ∙ ground (arith, np) ∙ (first-IsTaken.others f np).1

  second-IsTables : IsTables owner second xs
  second-IsTables = record {
    free = second-IsTaken.free;
    forest = agree-IsForest owner v.mm.mem second.mem w.forest (λ f a at.
        others_kept f (λ e. ground (arith, e, w.unowned)) (λ e. ground (arith, e, w.unowned)));
    unowned = w.unowned.1.1;
  }

  word_lem : second.mem p 0 ≡ rdmsr 0x480 v % 2 ^ 32
  word_lem =
      let cleared : first.mem p 0 ≡ 0 = first-IsTaken.zeroed refl 0 in
      let kept : second.mem p 0 ≡ region.mem p 0 = λ i. (second-IsTaken.others p p-ne-q).1 i 0 in
      kept ∙ ground (arith, cleared)

  word_alone : (j : ℕ) → j ≢ 0 → second.mem p j ≡ 0
  word_alone j other =
      let cleared : first.mem p j ≡ 0 = first-IsTaken.zeroed refl j in
      let kept : second.mem p j ≡ region.mem p j = λ i. (second-IsTaken.others p p-ne-q).1 i j in
      kept ∙ ground (arith, cleared)

  -- Before the fields.
  abbrev tree : Vmx
  tree = record v {
    vmcs = update v.vmcs 0x201a (bit_or (page2pa q) 0x18);
    allregs = λ i. if ltb i 17 then 0 else v.allregs i;
    cleared = page2pa p ∷ v.cleared;
    vmcsptr = page2pa p;
    loaded = some (page2pa p);
    ept_pgdir = some q;
    mm = second;
  }

  tree-IsMade : IsMade owner v p q xs tree
  tree-IsMade = record {
    region = (refl, word_lem);
    rest_clear = word_alone;
    ept = (refl, refl);
    tables =
        rooted-IsTables owner second q xs second-IsTables w.unowned.1.0
          first-IsTaken.free.distinct.0 (second-IsTaken.zeroed refl);
    empty = second-IsTaken.zeroed refl;
    registers = λ i below. ground arith;
  }

  -- With two free pages at least, over well-formed tables, `sys_create_vcpu` returns 0: it takes the first two
  -- pages, for the region and for the top of the guest's tables, and clears the guest's registers.
  pub sys_create_vcpu-IsMade :
      Returns (λ r u. (r ≡ pos 0) × IsMade owner v p q xs u) (sys_create_vcpu vmx_exit v)
  unfolding sys_create_vcpu
  sys_create_vcpu-IsMade =
      rw (alloc_page-eq-take 1 p (q ∷ xs) w.free, alloc_page-eq-take 1 q xs region-IsFree)
        (returns (
          refl,
          IsMade-IsFilled owner v p q xs tree _ (fill_fields-IsFilled vmx_exit tree) tree-IsMade,
        ))
