-- ===== src/Vmx/Control.antt =====
-- The control fields of a VMCS, `init_vmx_control`, and `check_ept`.
pub mod Allowed
use myos_git.Prelude.{
  ℕ, ◌/◌, ◌%◌, ◌^◌, Bool, true, false, bit_and, bit_or, ◌==◌, if◌then◌else◌, not,
}
use myos_git.Prelude.Int.{ℤ, pos, negsuc}
use myos_git.Vmx.State.{Vmx, vmwrite, rdmsr}

abbrev pub msr_pinbased_ctls : ℕ
msr_pinbased_ctls = 0x481

abbrev pub msr_procbased_ctls : ℕ
msr_procbased_ctls = 0x482

abbrev pub msr_exit_ctls : ℕ
msr_exit_ctls = 0x483

abbrev pub msr_entry_ctls : ℕ
msr_entry_ctls = 0x484

abbrev pub msr_procbased_ctls2 : ℕ
msr_procbased_ctls2 = 0x48b

abbrev pub msr_ept_vpid_cap : ℕ
msr_ept_vpid_cap = 0x48c

-- The encodings of the five control fields.
abbrev pub pin_based_vm_exec_control : ℕ
pin_based_vm_exec_control = 0x4000

abbrev pub cpu_based_vm_exec_control : ℕ
cpu_based_vm_exec_control = 0x4002

abbrev pub vm_exit_controls : ℕ
vm_exit_controls = 0x400c

abbrev pub vm_entry_controls : ℕ
vm_entry_controls = 0x4012

abbrev pub secondary_vm_exec_control : ℕ
secondary_vm_exec_control = 0x401e

-- The two halves of a capability register, as unsigned ints.
abbrev pub high_half : ℕ → ℕ
high_half msr_value = msr_value / 2 ^ 32 % 2 ^ 32

abbrev pub low_half : ℕ → ℕ
low_half msr_value = msr_value % 2 ^ 32

-- `high & low` for `low = msr_value | wanted`.
unfoldable pub adjusted : ℕ → ℕ → ℕ
adjusted wanted msr_value = bit_and (high_half msr_value) (low_half (bit_or msr_value wanted))

-- The processor based controls are read and computed, and then a constant is written.
unfoldable pub init_vmx_control : Vmx → Vmx
init_vmx_control v =
    let entry =
      vmwrite vm_entry_controls
        (bit_and (low_half (rdmsr msr_entry_ctls v)) (high_half (rdmsr msr_entry_ctls v))) v in
    let pin =
      vmwrite pin_based_vm_exec_control (adjusted 0x1 (rdmsr msr_pinbased_ctls entry)) entry in
    let cpu = vmwrite cpu_based_vm_exec_control 0x860061f2 pin in
    let second =
      vmwrite secondary_vm_exec_control (adjusted 0x82 (rdmsr msr_procbased_ctls2 cpu)) cpu in
    vmwrite vm_exit_controls (adjusted 0x8200 (rdmsr msr_exit_ctls second)) second

-- The second half of `check_ept`, with the secondary controls.
check_second : Vmx → ℤ × Vmx
check_second v =
    if bit_and v.second_exec_control 0x2 == 0
    then (negsuc 0, v)
    else (pos 0, record v { ept_vpid_cap = rdmsr msr_ept_vpid_cap v % 2 ^ 32 })

pub check_ept : Vmx → ℤ × Vmx
unfolding check_second
check_ept v =
    let exec = bit_or v.exec_control (high_half (rdmsr msr_procbased_ctls v)) in
    let second = bit_or v.second_exec_control (high_half (rdmsr msr_procbased_ctls2 v)) in
    if bit_and exec 0x80000000 == 0
    then (negsuc 0, record v { exec_control = exec })
    else check_second (record v { exec_control = exec; second_exec_control = second })
