-- ===== src/Trap/Gates.antt =====
-- The descriptors that kernel/amd64/trap.c writes: set_idt_desc, set_tss_desc and init_trap.
pub mod Installed
use myos_git.Prelude.{
  ℕ, ◌+◌, ◌*◌, ◌/◌, ◌%◌, ◌^◌, ◌<◌, ◌≡◌, ◌≢◌, refl, sym, List, [], ◌∷◌, update, arith, Bool, true,
  false, bit_and, ◌∙◌, ◌==◌, if◌then◌else◌,
}
use myos_git.Prelude.Bits.{bit_and_mask}

-- `struct idt_desc`.
pub record Gate : Type 0 where
  pub offset0 : ℕ
  pub selector : ℕ
  pub reserve : ℕ
  pub kind : ℕ
  pub offset1 : ℕ
  pub offset2 : ℕ
  pub reserved_ign : ℕ

-- The fields as the assignments cut them: 16, 16 and 32 bits of the address.
pub gate_of : (addr kind : ℕ) → Gate
gate_of addr kind = record {
  offset0 = bit_and addr 0xffff;
  selector = 0x08;
  reserve = 0;
  kind = kind % 2 ^ 8;
  offset1 = bit_and (addr / 2 ^ 16) 0xffff;
  offset2 = addr / 2 ^ 32 % 2 ^ 32;
  reserved_ign = 0;
}

-- The table by its number, an unsigned char.
pub set_idt_desc : (idtno addr kind : ℕ) → (ℕ → Gate) → ℕ → Gate
unfolding gate_of
set_idt_desc idtno addr kind idt = update idt (idtno % 2 ^ 8) (gate_of addr kind)

-- `struct gdt_desc` for the task state.
pub record TssDesc : Type 0 where
  pub limit0 : ℕ
  pub base0 : ℕ
  pub base1 : ℕ
  pub kind : ℕ
  pub limit1 : ℕ
  pub base2 : ℕ
  pub base3 : ℕ
  pub reserved_zero : ℕ

pub set_tss_desc : (addr limit kind : ℕ) → TssDesc
set_tss_desc addr limit kind = record {
  limit0 = bit_and limit 0xffff;
  base0 = bit_and addr 0xffff;
  base1 = bit_and (addr / 2 ^ 16) 0xff;
  kind = kind % 2 ^ 8;
  limit1 = 0;
  base2 = bit_and (addr / 2 ^ 24) 0xff;
  base3 = addr / 2 ^ 32 % 2 ^ 32;
  reserved_zero = 0;
}

-- The entry points that kernel/amd64/trapentry.S has for the processor.
pub data Handler : Type 0 where
  divide_trap : Handler
  debug_trap : Handler
  breakpoint_trap : Handler
  overflow_trap : Handler
  bound_trap : Handler
  invalid_trap : Handler
  coprocessor_not_avail_trap : Handler
  double_trap : Handler
  segment_trap : Handler
  invalid_tss_trap : Handler
  segmentnotpresent_trap : Handler
  stack_trap : Handler
  protection_trap : Handler
  page_fault_trap : Handler
  coprocessor_trap : Handler
  syscall_trap : Handler
  timer_intr : Handler
  kdb_intr : Handler

-- The numbers, handlers and types of the gates that `init_trap` sets, in its order.
abbrev pub trap_gates : List (ℕ × Handler × ℕ)
trap_gates =
    (0, divide_trap, 0x8f)
    ∷ (1, debug_trap, 0x8f)
    ∷ (3, breakpoint_trap, 0xef)
    ∷ (4, overflow_trap, 0xef)
    ∷ (5, bound_trap, 0xef)
    ∷ (6, invalid_trap, 0xef)
    ∷ (7, coprocessor_not_avail_trap, 0xef)
    ∷ (8, double_trap, 0xef)
    ∷ (9, segment_trap, 0xef)
    ∷ (10, invalid_tss_trap, 0xef)
    ∷ (11, segmentnotpresent_trap, 0xef)
    ∷ (12, stack_trap, 0xef)
    ∷ (13, protection_trap, 0xef)
    ∷ (14, page_fault_trap, 0xef)
    ∷ (16, coprocessor_trap, 0xef)
    ∷ (20, syscall_trap, 0xee)
    ∷ (32, timer_intr, 0x8e)
    ∷ (33, kdb_intr, 0x8e)
    ∷ []

-- The addresses of the entry points are the linker's.
abbrev pub set_gates : (Handler → ℕ) → List (ℕ × Handler × ℕ) → (ℕ → Gate) → ℕ → Gate
set_gates entries [] idt = idt
set_gates entries ((n, h, kind) ∷ l) idt = set_gates entries l (set_idt_desc n (entries h) kind idt)

pub init_trap : (Handler → ℕ) → (ℕ → Gate) → ℕ → Gate
unfolding set_idt_desc
init_trap entries idt = set_gates entries trap_gates idt

-- How the processor reads the base of the task state.
abbrev pub base : TssDesc → ℕ
base t = t.base0 + t.base1 * 2 ^ 16 + t.base2 * 2 ^ 24 + t.base3 * 2 ^ 32

-- The processor reads the address of the task state out of the descriptor that `set_tss_desc` writes.
pub base-set_tss_desc :
    (addr limit kind : ℕ) → addr < 2 ^ 64 → base (set_tss_desc addr limit kind) ≡ addr
unfolding set_tss_desc
base-set_tss_desc addr limit kind small =
    omega
      (arith, bit_and_mask 16 addr, bit_and_mask 8 (addr / 2 ^ 16), bit_and_mask 8 (addr / 2 ^ 24))
