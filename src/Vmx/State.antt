-- ===== src/Vmx/State.antt =====
-- The state of kernel/amd64/vmx.c, with the processor's registers that it reads and writes.
use myos_git.Prelude.{ℕ, Option, List, ◌∷◌, [], ◌%◌, ◌^◌, update, ◌≡◌, refl}
use myos_git.Prelude.Result.{Res, ok, fault, Returns, returns}
use myos_git.Mm.State.{Mm}

-- The fields of the current VMCS by their encoding, the model specific registers, the control registers and
-- tables of the host, the physical addresses given to `vmxon`, `vmclear` and `vmptrld`, `allregs`, the frame of
-- `ept_pgdir` and the global control words, and the memory.
pub record Vmx : Type 0 where
  pub vmcs : ℕ → ℕ
  pub msr : ℕ → ℕ
  pub cr0 : ℕ
  pub cr3 : ℕ
  pub cr4 : ℕ
  pub rsp : ℕ
  pub gdt_base : ℕ
  pub idt_base : ℕ
  pub vmxon_region : Option ℕ
  pub cleared : List ℕ
  pub loaded : Option ℕ
  pub vmcsptr : ℕ
  pub allregs : ℕ → ℕ
  pub ept_pgdir : Option ℕ
  pub exec_control : ℕ
  pub second_exec_control : ℕ
  pub ept_vpid_cap : ℕ
  pub mm : Mm

-- `vmwrite` and `vmread`, with a current VMCS.
abbrev pub vmwrite : ℕ → ℕ → Vmx → Vmx
vmwrite index value v = record v { vmcs = update v.vmcs index value }

abbrev pub vmread : ℕ → Vmx → ℕ
vmread index v = v.vmcs index

-- `rdmsr` and `wrmsr`, of 64 bits.
abbrev pub rdmsr : ℕ → Vmx → ℕ
rdmsr index v = v.msr index

abbrev pub wrmsr : ℕ → ℕ → Vmx → Vmx
wrmsr index value v = record v { msr = update v.msr index (value % 2 ^ 64) }

-- A list of writes, in their order.
abbrev pub write_all : List (ℕ × ℕ) → Vmx → Vmx
write_all [] v = v
write_all ((index, value) ∷ fields) v = write_all fields (vmwrite index value v)

-- A step of the memory within the monitor.
abbrev pub lift_mm {ℓ} : {A : Type ℓ} → Res Mm A → Vmx → Res Vmx A
lift_mm (ok a t) v = ok a (record v { mm = t })
lift_mm fault v = fault

-- What a step of the memory gives holds after it within the monitor, whose fields of the VMCS stay.
pub Returns-lift_mm {ℓ κ} :
    {A : Type ℓ} {P : A → Mm → Type κ} {r : Res Mm A} (v : Vmx)
    → Returns P r
    → Returns (λ a w. P a w.mm × ((f : ℕ) → w.vmcs f ≡ v.vmcs f)) (lift_mm r v)
Returns-lift_mm v (returns p) = returns (p, λ f. refl)
