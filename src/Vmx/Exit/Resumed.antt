-- ===== src/Vmx/Exit/Resumed.antt =====
-- The guest after an exit that the monitor handles.
use myos_git.Prelude.{
  ℕ, ◌+◌, ◌*◌, ◌/◌, ◌%◌, ◌^◌, ◌<◌, ◌≡◌, ◌≢◌, ◌⊎◌, inl, inr, refl, ◌∙◌, bit_and, ◌==◌, if◌then◌else◌,
  arith,
}
use myos_git.Prelude.Bits.{bit, bit_and_mask, bit_or_fields}
use myos_git.Vmx.Control.{vm_entry_controls}
use myos_git.Vmx.State.{Vmx, vmread}
use myos_git.Vmx.Exit.{
  Next, resumed, vmexit, dispatch, save_regs, entry_info, guest_rip, guest_cr0,
  vm_exit_instruction_len, vm_exit_intr_info, vm_entry_intr_info_field, vm_exit_reason,
  skip_instruction,
}

-- The reason of the exit, without the flags above it.
abbrev pub basic_reason : Vmx → ℕ
basic_reason v = vmread vm_exit_reason v % 2 ^ 16

-- The guest runs again with the registers that it had, RSP being in the VMCS, and with the memory that it had.
pub record IsResumed (regs : ℕ → ℕ) (v : Vmx) (n : Next) : Type 0 where
  pub loaded : ℕ → ℕ
  pub after : Vmx
  pub runs : n ≡ resumed loaded after
  pub registers : (i : ℕ) → i < 16 → i ≢ 4 → loaded i ≡ regs i
  pub memory : after.mm ≡ v.mm
  pub tables : after.ept_pgdir ≡ v.ept_pgdir

-- Exits for an instruction, port input and output (30) and `rdmsr` (31): the instruction pointer has moved
-- past it, and no other field has changed.
pub record IsSkipped (regs : ℕ → ℕ) (v : Vmx) (n : Next) : Type 0 where
  pub resumption : IsResumed regs v n
  pub rip :
      vmread guest_rip resumption.after
      ≡ (vmread guest_rip v + vmread vm_exit_instruction_len v) % 2 ^ 64
  pub fields : (f : ℕ) → f ≢ guest_rip → vmread f resumption.after ≡ vmread f v

reason_of : (regs : ℕ → ℕ) (v : Vmx) → bit_and (vmread vm_exit_reason v) 0xffff ≡ basic_reason v
reason_of regs v = bit_and_mask 16 (vmread vm_exit_reason v)

vmexit-eq-dispatch :
    (regs : ℕ → ℕ) (v : Vmx) → vmexit regs v ≡ dispatch (basic_reason v) (save_regs regs v)
unfolding vmexit save_regs
vmexit-eq-dispatch regs v = rw (reason_of regs v) refl

module _ (regs : ℕ → ℕ) (v : Vmx) where
  saved_reg : (i : ℕ) → i < 16 → i ≢ 4 → (save_regs regs v).allregs i ≡ regs i
  unfolding save_regs
  saved_reg i low other = ground arith

  abbrev saved : Vmx
  saved = save_regs regs v

  skip_instruction-IsSkipped : IsSkipped regs v (resumed saved.allregs (skip_instruction saved))
  unfolding skip_instruction save_regs
  skip_instruction-IsSkipped = record {
    resumption = record {
      loaded = saved.allregs;
      after = skip_instruction saved;
      runs = refl;
      registers = saved_reg;
      memory = refl;
      tables = refl;
    };
    rip = refl;
    fields = λ f other. ground arith;
  }

  -- On an exit for a port or an `rdmsr` instruction, the guest goes on behind the instruction with its own
  -- registers, memory and tables, and no other field of the VMCS has changed.
  pub vmexit-IsSkipped :
      (basic_reason v ≡ 30) ⊎ (basic_reason v ≡ 31) → IsSkipped regs v (vmexit regs v)
  unfolding dispatch
  vmexit-IsSkipped reason = rw (vmexit-eq-dispatch regs v) (elim reason [
    | inl io ↦ rw io skip_instruction-IsSkipped
    | inr rdmsr ↦ rw rdmsr skip_instruction-IsSkipped
  ])

  -- An exit for an external interrupt (1): the guest is entered again where it was, with that interruption.
  pub record IsReinjected (n : Next) : Type 0 where
    pub resumption : IsResumed regs v n
    pub injected :
        vmread vm_entry_intr_info_field resumption.after
        ≡ 2 ^ 31 + vmread vm_exit_intr_info v % 2 ^ 11
    pub fields : (f : ℕ) → f ≢ vm_entry_intr_info_field → vmread f resumption.after ≡ vmread f v

  entry_info-eq-add : (info : ℕ) → entry_info info ≡ 2 ^ 31 + info % 2 ^ 11
  unfolding entry_info
  entry_info-eq-add info =
      let nr : bit_and (info % 2 ^ 32) 0xff ≡ info % 2 ^ 8 =
        bit_and_mask 8 (info % 2 ^ 32) ∙ omega arith in
      let kind : bit_and (info % 2 ^ 32 / 2 ^ 8) 0x7 ≡ info / 2 ^ 8 % 2 ^ 3 =
        bit_and_mask 3 (info % 2 ^ 32 / 2 ^ 8) ∙ omega arith in
      let high = bit_or_fields 31 1 (info / 2 ^ 8 % 2 ^ 3 * 2 ^ 8) (omega arith) in
      let low = bit_or_fields 8 (2 ^ 23 + info / 2 ^ 8 % 2 ^ 3) (info % 2 ^ 8) (omega arith) in
      let joined : 2 ^ 31 + info / 2 ^ 8 % 2 ^ 3 * 2 ^ 8 ≡ (2 ^ 23 + info / 2 ^ 8 % 2 ^ 3) * 2 ^ 8 =
        omega arith in
      rw (nr, kind, high, joined, low) (omega arith)

  -- On an exit for an external interrupt, the guest is entered again with its registers, memory and tables: the
  -- interruption it is given is valid and has the type and vector of the one that caused the exit, and no
  -- other field of the VMCS has changed.
  pub vmexit-IsReinjected : basic_reason v ≡ 1 → IsReinjected (vmexit regs v)
  unfolding dispatch save_regs
  vmexit-IsReinjected reason =
      rw (vmexit-eq-dispatch regs v, reason)
        record {
          resumption = record {
            loaded = saved.allregs;
            after = _;
            runs = refl;
            registers = saved_reg;
            memory = refl;
            tables = refl;
          };
          injected = entry_info-eq-add (vmread vm_exit_intr_info v);
          fields = λ f other. ground arith;
        }

  -- An exit for `wrmsr` (32): the guest's paging and protection bits and the control for long mode become 1, all
  -- their other bits stay.
  pub record IsLong (n : Next) : Type 0 where
    pub resumption : IsResumed regs v n
    pub rip :
        vmread guest_rip resumption.after
        ≡ (vmread guest_rip v + vmread vm_exit_instruction_len v) % 2 ^ 64
    pub cr0 :
        (k : ℕ)
        → k < 32
        → bit k (vmread guest_cr0 resumption.after)
          ≡ (if k == 0 then 1 else if k == 31 then 1 else bit k (vmread guest_cr0 v))
    pub controls :
        (k : ℕ)
        → bit k (vmread vm_entry_controls resumption.after)
          ≡ (if k == 9 then 1 else bit k (vmread vm_entry_controls v))
    pub fields :
        (f : ℕ)
        → f ≢ guest_rip
        → f ≢ guest_cr0
        → f ≢ vm_entry_controls
        → vmread f resumption.after ≡ vmread f v
