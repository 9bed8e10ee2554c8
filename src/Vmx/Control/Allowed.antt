-- ===== src/Vmx/Control/Allowed.antt =====
-- The control fields against the processor's capability registers.
use Prim.Native.Nat.{min, max}
use myos_git.Prelude.{ℕ, ◌<◌, ◌≤◌, ◌≡◌, ap, ◌∙◌, bit_and, bit_or, arith}
use myos_git.Prelude.Bits.{bit, bit-lt, bit-mod, bit-bit_and, bit-bit_or, bit-zero}
use myos_git.Vmx.State.{Vmx, rdmsr}
use myos_git.Vmx.Control.{
  init_vmx_control, adjusted, high_half, low_half, msr_entry_ctls, msr_exit_ctls, msr_pinbased_ctls,
  msr_procbased_ctls2, vm_entry_controls, vm_exit_controls, pin_based_vm_exec_control,
  secondary_vm_exec_control,
}

-- A capability register: a control that must be 1 may be 1.
abbrev pub IsCapability : ℕ → Type 0
IsCapability msr_value = (k : ℕ) → k < 32 → bit k (low_half msr_value) ≤ bit k (high_half msr_value)

-- A control word that the register allows: 1 where it must be, 0 where it must be, and 1 where it is wanted
-- and may be.
pub record IsAllowed (msr_value wanted control : ℕ) : Type 0 where
  pub must : (k : ℕ) → k < 32 → bit k (low_half msr_value) ≤ bit k control
  pub may : (k : ℕ) → k < 32 → bit k control ≤ bit k (high_half msr_value)
  pub asked :
      (k : ℕ) → k < 32 → bit k wanted ≡ 1 → bit k (high_half msr_value) ≡ 1 → bit k control ≡ 1

adjusted-IsAllowed :
    (wanted msr_value : ℕ)
    → IsCapability msr_value
    → IsAllowed msr_value wanted (adjusted wanted msr_value)
unfolding adjusted
adjusted-IsAllowed wanted msr_value capable = record {
  must = λ k h. omega (arith, adjusted_bit k h, capable k h, low_bit k h);
  may = λ k h. omega (arith, adjusted_bit k h);
  asked = λ k h want able.
      omega (arith, adjusted_bit k h, bit-lt k msr_value, bit-lt k (adjusted wanted msr_value));
}
  where
    low_bit : (k : ℕ) → k < 32 → bit k (low_half msr_value) ≡ bit k msr_value
    low_bit k h = bit-mod 32 k msr_value h

    adjusted_bit :
        (k : ℕ)
        → k < 32
        → bit k (adjusted wanted msr_value)
          ≡ min (bit k (high_half msr_value)) (max (bit k msr_value) (bit k wanted))
    adjusted_bit k h =
        bit-bit_and k (high_half msr_value) (low_half (bit_or msr_value wanted))
        ∙ ap (min (bit k (high_half msr_value)))
            (bit-mod 32 k (bit_or msr_value wanted) h ∙ bit-bit_or k msr_value wanted)

plain-IsAllowed :
    (msr_value : ℕ)
    → IsCapability msr_value
    → IsAllowed msr_value 0 (bit_and (low_half msr_value) (high_half msr_value))
plain-IsAllowed msr_value capable = record {
  must =
      λ k h. omega (arith, bit-bit_and k (low_half msr_value) (high_half msr_value), capable k h);
  may = λ k h. omega (arith, bit-bit_and k (low_half msr_value) (high_half msr_value));
  asked = λ k h want able. absurd (omega (arith, bit-zero k));
}

-- On a processor with such registers, each of four control fields is allowed by its register and has the
-- controls that the monitor wants where the processor has them.
pub init_vmx_control-IsAllowed :
    (v : Vmx)
    → IsCapability (rdmsr msr_entry_ctls v)
    → IsCapability (rdmsr msr_pinbased_ctls v)
    → IsCapability (rdmsr msr_procbased_ctls2 v)
    → IsCapability (rdmsr msr_exit_ctls v)
    → IsAllowed (rdmsr msr_entry_ctls v) 0 ((init_vmx_control v).vmcs vm_entry_controls)
      × IsAllowed
          (rdmsr msr_pinbased_ctls v)
          0x1
          ((init_vmx_control v).vmcs pin_based_vm_exec_control)
      × IsAllowed
          (rdmsr msr_procbased_ctls2 v)
          0x82
          ((init_vmx_control v).vmcs secondary_vm_exec_control)
      × IsAllowed (rdmsr msr_exit_ctls v) 0x8200 ((init_vmx_control v).vmcs vm_exit_controls)
unfolding init_vmx_control
init_vmx_control-IsAllowed v entry pin second exit = (
  plain-IsAllowed (rdmsr msr_entry_ctls v) entry,
  adjusted-IsAllowed 0x1 (rdmsr msr_pinbased_ctls v) pin,
  adjusted-IsAllowed 0x82 (rdmsr msr_procbased_ctls2 v) second,
  adjusted-IsAllowed 0x8200 (rdmsr msr_exit_ctls v) exit,
)
