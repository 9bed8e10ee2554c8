-- ===== src/Vmx/Exit.antt =====
-- The exits of the guest: the end of `vmexit` and its handlers. The print calls are left out.
pub mod Resumed
use myos_git.Prelude.{
  ℕ, zero, suc, ◌+◌, ◌-◌, ◌*◌, ◌/◌, ◌%◌, ◌^◌, bit_and, bit_or, ◌==◌, ltb, if◌then◌else◌,
}
use myos_git.Vmx.Control.{vm_entry_controls}
use myos_git.Vmx.State.{Vmx, vmread, vmwrite}

-- How an exit goes on: the guest runs again with the registers that `vmresume` loads, `vmexit` returns, or it
-- loops for ever.
pub data Next : Type 0 where
  resumed : (ℕ → ℕ) → Vmx → Next
  back : Vmx → Next
  stuck : Vmx → Next

abbrev pub guest_rip : ℕ
guest_rip = 0x681e

abbrev pub guest_cr0 : ℕ
guest_cr0 = 0x6800

abbrev pub vm_exit_instruction_len : ℕ
vm_exit_instruction_len = 0x440c

abbrev pub vm_exit_intr_info : ℕ
vm_exit_intr_info = 0x4404

abbrev pub vm_entry_intr_info_field : ℕ
vm_entry_intr_info_field = 0x4016

abbrev host_rsp : ℕ
host_rsp = 0x6c14

abbrev pub vm_exit_reason : ℕ
vm_exit_reason = 0x4402

-- `vmresume`: the sixteen registers of `allregs` are loaded, and the guest runs.
pub vmresume : Vmx → Next
vmresume v = resumed v.allregs v

-- `rip += vmread(VM_EXIT_INSTRUCTION_LEN)`.
unfoldable pub skip_instruction : Vmx → Vmx
skip_instruction v =
    vmwrite guest_rip ((vmread guest_rip v + vmread vm_exit_instruction_len v) % 2 ^ 64) v

pub handle_io : Vmx → Next
unfolding skip_instruction vmresume
handle_io v = vmresume (skip_instruction v)

pub handle_rdmsr : Vmx → Next
unfolding skip_instruction vmresume
handle_rdmsr v = vmresume (skip_instruction v)

-- The interruption that the guest is entered with, from that of the exit: valid, the type and the vector.
unfoldable pub entry_info : ℕ → ℕ
entry_info exit_intr_info =
    let nr = bit_and (exit_intr_info % 2 ^ 32) 0xff in
    let kind = bit_and (exit_intr_info % 2 ^ 32 / 2 ^ 8) 0x7 in
    bit_or (bit_or (bit_or 0 0x80000000) (kind * 2 ^ 8)) nr

pub handle_intr : Vmx → Next
unfolding entry_info vmresume
handle_intr v =
    vmresume (vmwrite vm_entry_intr_info_field (entry_info (vmread vm_exit_intr_info v)) v)

-- The write of the guest to EFER is taken for its switch to long mode. `cr0` is a 32-bit variable.
pub handle_wrmsr : Vmx → Next
unfolding skip_instruction vmresume
handle_wrmsr v =
    let paged = vmwrite guest_cr0 (bit_or (vmread guest_cr0 v % 2 ^ 32) 0x80000001) v in
    let long =
      vmwrite vm_entry_controls (bit_or (vmread vm_entry_controls paged) 0x00000200) paged in
    vmresume (skip_instruction long)

pub handle_eptexit : Vmx → Next
handle_eptexit v = back v

-- What `vmexit` stores from the label `Vmx_exit` on: the guest's registers, but for RSP, number 4: the
-- processor has loaded it from the host's field, and RCX is pushed first.
unfoldable pub save_regs : (ℕ → ℕ) → Vmx → Vmx
save_regs regs v = record v {
  allregs = λ i.
      if i == 4
      then (vmread host_rsp v + 2 ^ 64 - 8) % 2 ^ 64
      else if ltb i 16
      then regs i
      else v.allregs i;
}

-- The dispatch on the exit's reason.
unfoldable pub dispatch : ℕ → Vmx → Next
unfolding handle_intr handle_io handle_rdmsr handle_wrmsr handle_eptexit
dispatch reason v =
    if reason == 1
    then handle_intr v
    else if reason == 12
    then stuck v
    else if reason == 30
    then handle_io v
    else if reason == 31
    then handle_rdmsr v
    else if reason == 32
    then handle_wrmsr v
    else if reason == 48
    then handle_eptexit v
    else back v

-- `vmexit` from the exit on, with the guest's registers.
pub vmexit : (ℕ → ℕ) → Vmx → Next
unfolding save_regs dispatch
vmexit regs v =
    let saved = save_regs regs v in dispatch (bit_and (vmread vm_exit_reason saved) 0xffff) saved
