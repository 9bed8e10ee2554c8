-- ===== src/Vmx/Tests.antt =====
-- Runs of kernel/amd64/vmx.c on a memory of 8 MB.
use myos_git.Prelude.{
  ℕ, ◌+◌, ◌-◌, ◌*◌, ◌^◌, ◌≡◌, refl, Option, none, some, List, [], ◌∷◌, ◌++◌, arith, ◌==◌,
  if◌then◌else◌, range,
}
use myos_git.Prelude.Int.{pos}
use myos_git.Prelude.Result.{Returns}
use myos_git.Prelude.Bits.{bit-ones, bit-lt}
use myos_git.Mm.State.{Mm}
use myos_git.Mm.Walk.Sample.{
  blank, memory, free_pages, one_table, no_table, memory-IsTables, table-IsTables,
  length-free_pages,
}
use myos_git.Vmx.State.{Vmx, rdmsr}
use myos_git.Vmx.Control.{
  init_vmx_control, msr_entry_ctls, msr_exit_ctls, msr_pinbased_ctls, msr_procbased_ctls2,
  vm_entry_controls, vm_exit_controls, pin_based_vm_exec_control, secondary_vm_exec_control,
}
use myos_git.Vmx.Control.Allowed.{IsAllowed, IsCapability, init_vmx_control-IsAllowed}
use myos_git.Vmx.Create.{sys_create_vcpu}
use myos_git.Vmx.Create.Made.{IsMade, sys_create_vcpu-IsMade}
use myos_git.Vmx.Memory.{sys_alloc_vm_mem, sys_mmap_mem}
use myos_git.Vmx.Memory.Guest.{IsGuest, sys_alloc_vm_mem-IsGuest}
use myos_git.Vmx.Memory.Bytes.{IsGiven, sys_mmap_mem-IsGiven}
use myos_git.Vmx.Exit.{vmexit}
use myos_git.Vmx.Exit.Resumed.{IsReinjected, vmexit-IsReinjected}

-- A processor whose capability registers allow all controls, on the memory `mm`.
abbrev monitor : Mm → (ℕ → ℕ) → Option ℕ → Vmx
monitor mm vmcs root = record {
  vmcs = vmcs;
  msr = λ i. if i == 0x480 then 0x11e57ed0 else (2 ^ 32 - 1) * 2 ^ 32 + 0x16;
  cr0 = 0x80000021;
  cr3 = 0x100000;
  cr4 = 0x2020;
  rsp = 0x9000;
  gdt_base = 0x500;
  idt_base = 0x600;
  vmxon_region = none;
  cleared = [];
  loaded = none;
  vmcsptr = 0;
  allregs = λ i. 5;
  ept_pgdir = root;
  exec_control = 0;
  second_exec_control = 0;
  ept_vpid_cap = 0;
  mm = mm;
}

abbrev new_monitor : Vmx
new_monitor = monitor (memory 0) (λ f. 0) none

capable : IsCapability ((2 ^ 32 - 1) * 2 ^ 32 + 0x16)
capable k low = omega (arith, bit-ones 32 k low, bit-lt k 0x16)

init_vmx_control-IsAllowed_example :
    IsAllowed
      (rdmsr msr_entry_ctls new_monitor)
      0
      ((init_vmx_control new_monitor).vmcs vm_entry_controls)
    × IsAllowed
        (rdmsr msr_pinbased_ctls new_monitor)
        0x1
        ((init_vmx_control new_monitor).vmcs pin_based_vm_exec_control)
    × IsAllowed
        (rdmsr msr_procbased_ctls2 new_monitor)
        0x82
        ((init_vmx_control new_monitor).vmcs secondary_vm_exec_control)
    × IsAllowed
        (rdmsr msr_exit_ctls new_monitor)
        0x8200
        ((init_vmx_control new_monitor).vmcs vm_exit_controls)
init_vmx_control-IsAllowed_example =
    init_vmx_control-IsAllowed new_monitor capable capable capable capable

-- The pages 9 and 10 are the first free ones.
abbrev later_pages : List ℕ
later_pages = range 11 149 ++ (range 1 7 ++ range 256 0)

sys_create_vcpu-IsMade_example :
    Returns
      (λ r u. (r ≡ pos 0) × IsMade no_table new_monitor 9 10 later_pages u)
      (sys_create_vcpu 0x123456 new_monitor)
sys_create_vcpu-IsMade_example =
    sys_create_vcpu-IsMade no_table new_monitor 9 10 later_pages 0x123456
      (memory-IsTables 0 (omega arith))

abbrev guest_monitor : Vmx
guest_monitor = monitor (memory 1792) (λ f. 0) (some 200)

-- Eight pages of guest memory from 0x218000.
sys_alloc_vm_mem-IsGuest_example :
    Returns
      (λ r w.
        ((r ≡ pos 0) × IsGuest one_table guest_monitor.mm (free_pages 1792) 200 0x220000 w.mm)
        × ((f : ℕ) → w.vmcs f ≡ guest_monitor.vmcs f))
      (sys_alloc_vm_mem 0x220000 guest_monitor)
sys_alloc_vm_mem-IsGuest_example =
    sys_alloc_vm_mem-IsGuest one_table guest_monitor (free_pages 1792) 200 0x220000 refl
      (table-IsTables 1792 (omega arith)) refl (omega arith) (omega (arith, length-free_pages 1792))

abbrev small_monitor : Vmx
small_monitor = monitor (memory 0) (λ f. 0) (some 200)

sys_mmap_mem-IsGiven_example :
    Returns
      (λ r u.
        ((r ≡ pos 0) × IsGiven one_table small_monitor.mm 9 200 0x7c00 512 (λ i. i + 1) u.mm)
        × ((f : ℕ) → u.vmcs f ≡ small_monitor.vmcs f))
      (sys_mmap_mem (λ i. i + 1) 512 0x7c00 small_monitor)
sys_mmap_mem-IsGiven_example =
    sys_mmap_mem-IsGiven one_table small_monitor 9 (10 ∷ later_pages) 200 0x7c00 512 (λ i. i + 1)
      refl (table-IsTables 0 (omega arith)) refl (omega arith) (omega arith) (omega arith)

-- A monitor after an exit for the reason.
abbrev left_for : ℕ → Vmx
left_for reason =
    monitor blank
      (λ f.
        if f == 0x4402
        then 0x80000000 + reason
        else if f == 0x440c
        then 2
        else if f == 0x4404
        then 0x80000021
        else f)
      none

abbrev guest_regs : ℕ → ℕ
guest_regs i = i + 100

vmexit-IsReinjected_example : IsReinjected guest_regs (left_for 1) (vmexit guest_regs (left_for 1))
vmexit-IsReinjected_example = vmexit-IsReinjected guest_regs (left_for 1) refl
