-- ===== src/Vmx/Create.antt =====
-- A virtual processor made, `sys_create_vcpu`, and the extensions switched on, `enable_vmx`. The print calls
-- are left out.
pub mod Made
use myos_git.Prelude.{
  ℕ, zero, suc, ◌+◌, ◌-◌, ◌*◌, ◌/◌, ◌%◌, ◌^◌, Option, none, some, List, [], ◌∷◌, bit_or, ltb,
  update, if◌then◌else◌,
}
use myos_git.Prelude.Int.{ℤ, pos, negsuc}
use myos_git.Prelude.Result.{Res, ok, fault, and_then}
use myos_git.Mm.{alloc_page, page2pa}
use myos_git.Mm.State.{Mm, set_word}
use myos_git.Vmx.State.{Vmx, vmwrite, rdmsr, wrmsr, write_all}
use myos_git.Vmx.Control.{init_vmx_control, check_ept}

-- The address of the label `Vmx_exit`, which the linker fixes.
module _ (vmx_exit : ℕ) where
  -- The host's fields: CR0, CR3, CR4, then the selectors CS to TR, GDTR and IDTR, RIP and RSP, and EFER.
  pub init_host_state : Vmx → Vmx
  init_host_state v =
      write_all
        ((0x6c00, v.cr0)
          ∷ (0x6c02, v.cr3)
          ∷ (0x6c04, v.cr4)
          ∷ (0x0c02, 0x08)
          ∷ (0x0c06, 0x10)
          ∷ (0x0c00, 0)
          ∷ (0x0c08, 0)
          ∷ (0x0c0a, 0)
          ∷ (0x0c04, 0x10)
          ∷ (0x0c0c, 0x28)
          ∷ (0x6c0c, v.gdt_base)
          ∷ (0x6c0e, v.idt_base)
          ∷ (0x6c16, vmx_exit)
          ∷ (0x6c14, (v.rsp + 8) % 2 ^ 64)
          ∷ (0x2c02, rdmsr 0xc0000080 v)
          ∷ [])
        v

-- The guest's fields, in the source's order: CR0, CR3, CR4, RFLAGS; CS, RIP and RSP; the descriptor tables;
-- the access rights, limits and selectors of ES, SS, DS, FS and GS; LDTR, TR and the rest.
abbrev guest_fields : List (ℕ × ℕ)
guest_fields =
    (0x6800, 0x20)
    ∷ (0x6802, 0)
    ∷ (0x6804, 0x2000)
    ∷ (0x6820, 0x2)
    ∷ (0x0802, 0)
    ∷ (0x4802, 0xffff)
    ∷ (0x4816, 0x9f)
    ∷ (0x6808, 0)
    ∷ (0x681e, 0x7c00)
    ∷ (0x681c, 0)
    ∷ (0x6816, 0)
    ∷ (0x6818, 0)
    ∷ (0x4810, 0x30)
    ∷ (0x4812, 0x3ff)
    ∷ (0x4814, 0x93)
    ∷ (0x4818, 0x93)
    ∷ (0x481a, 0x93)
    ∷ (0x481c, 0x93)
    ∷ (0x481e, 0x93)
    ∷ (0x4800, 0xffff)
    ∷ (0x4804, 0xffff)
    ∷ (0x4806, 0xffff)
    ∷ (0x4808, 0xffff)
    ∷ (0x480a, 0xffff)
    ∷ (0x0800, 0)
    ∷ (0x0804, 0)
    ∷ (0x0806, 0)
    ∷ (0x0808, 0)
    ∷ (0x080a, 0)
    ∷ (0x080c, 0)
    ∷ (0x080e, 0)
    ∷ (0x480c, 0xffff)
    ∷ (0x480e, 0xffff)
    ∷ (0x4820, 0x82)
    ∷ (0x4822, 0x8b)
    ∷ (0x6816, 0)
    ∷ (0x6818, 0)
    ∷ (0x681a, 0)
    ∷ (0x4826, 0)
    ∷ (0x4824, 0)
    ∷ []

pub init_guest_state : Vmx → Vmx
init_guest_state v = write_all guest_fields v

-- The low 32 bits of a frame's first word.
abbrev with_low : ℕ → ℕ → ℕ
with_low low word = word / 2 ^ 32 * 2 ^ 32 + low

-- A page for a region that begins with the revision, `*(unsigned int *) PAGE2VA(pp) = revision`.
revised : ℕ → Option ℕ × Mm → Res Mm ℕ
revised revision (none, s) = fault
revised revision (some p, s) = ok p (set_word p 0 (with_low revision (s.mem p 0)) s)

new_region : Vmx → Res Mm ℕ
unfolding revised
new_region v = revised (rdmsr 0x480 v % 2 ^ 32) (alloc_page 1 v.mm)

-- `vmclear` and `vmptrld` of the new region.
load_region : ℕ → Mm → Vmx → Vmx
load_region p s v = record v {
  cleared = page2pa p ∷ v.cleared;
  vmcsptr = page2pa p;
  loaded = some (page2pa p);
  mm = s;
}

-- `PAGE2VA(pp)` as `ept_pgdir`, and the EPT pointer with a walk of four levels.
set_ept : Option ℕ × Mm → Vmx → Res Vmx ℤ
set_ept (none, s) v = fault
set_ept (some p, s) v =
    ok (pos 0) (vmwrite 0x201a (bit_or (page2pa p) 0x18) (record v { ept_pgdir = some p; mm = s }))

-- The rest of `sys_create_vcpu`.
fill_fields : ℕ → Vmx → Vmx
fill_fields vmx_exit v =
    vmwrite 0x2801 0xffffffff
      (vmwrite 0x2800 0xffffffff (init_guest_state (init_host_state vmx_exit (init_vmx_control v))))

with_region : ℕ → Vmx → Res Mm ℕ → Res Vmx ℤ
unfolding load_region set_ept fill_fields
with_region vmx_exit v fault = fault
with_region vmx_exit v (ok p s) =
    and_then (set_ept (alloc_page 1 s) (load_region p s v))
      (λ r u. ok (pos 0) (fill_fields vmx_exit u))

-- `NR_VCPU_REGS` registers are cleared first.
pub sys_create_vcpu : ℕ → Vmx → Res Vmx ℤ
unfolding new_region with_region
sys_create_vcpu vmx_exit v =
    let clear = record v { allregs = λ i. if ltb i 17 then 0 else v.allregs i } in
    with_region vmx_exit clear (new_region clear)

-- `CR4` bit 13, `CR0` bit 5 and the lock of the feature control register.
switch_on : Vmx → Vmx
switch_on v =
    let on = record v { cr4 = bit_or v.cr4 0x2000; cr0 = bit_or v.cr0 0x20 } in
    wrmsr 0x3a (bit_or (rdmsr 0x3a on) 0x1) on

vmxon : Vmx → Res Mm ℕ → Res Vmx ℤ
vmxon v fault = fault
vmxon v (ok p s) = ok (pos 0) (record v { vmxon_region = some (page2pa p); mm = s })

pub enable_vmx : Vmx → Res Vmx ℤ
unfolding switch_on vmxon new_region
enable_vmx v = let on = (check_ept (switch_on v)).1 in vmxon on (new_region on)
