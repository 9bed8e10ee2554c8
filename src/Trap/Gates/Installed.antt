-- ===== src/Trap/Gates/Installed.antt =====
-- The gates that `init_trap` of kernel/amd64/trap.c sets, as the processor will use them.
use mathlib.Core.Path.{subst}
use myos_git.Prelude.{
  ℕ, ◌+◌, ◌*◌, ◌/◌, ◌%◌, ◌^◌, ◌<◌, ◌≡◌, ◌≢◌, refl, sym, List, [], ◌∷◌, arith, Bool, true, false,
  ◌∙◌, ◌==◌, if◌then◌else◌,
}
use myos_git.Prelude.Bits.{bit_and_mask}
use myos_git.Trap.Gates.{
  Gate, gate_of, set_idt_desc, Handler, divide_trap, debug_trap, breakpoint_trap, overflow_trap,
  bound_trap, invalid_trap, coprocessor_not_avail_trap, double_trap, segment_trap, invalid_tss_trap,
  segmentnotpresent_trap, stack_trap, protection_trap, page_fault_trap, coprocessor_trap,
  syscall_trap, timer_intr, kdb_intr, trap_gates, set_gates, init_trap,
}

-- How the processor reads a gate: the address of the handler, and the ring that may call it.
abbrev pub handler : Gate → ℕ
handler g = g.offset0 + g.offset1 * 2 ^ 16 + g.offset2 * 2 ^ 32

abbrev pub ring : Gate → ℕ
ring g = g.kind / 2 ^ 5 % 4

abbrev pub is_present : Gate → Bool
is_present g = g.kind / 2 ^ 7 == 1

-- 14 is an interrupt gate, which turns interrupts off, and 15 a trap gate, which does not.
abbrev pub gate_type : Gate → ℕ
gate_type g = g.kind % 2 ^ 5

gate_of-handler : (addr kind : ℕ) → addr < 2 ^ 64 → handler (gate_of addr kind) ≡ addr
unfolding gate_of
gate_of-handler addr kind small =
    omega (arith, bit_and_mask 16 addr, bit_and_mask 16 (addr / 2 ^ 16))

-- The processor's number of the event that each handler is for.
abbrev pub vector : Handler → ℕ
vector divide_trap = 0
vector debug_trap = 1
vector breakpoint_trap = 3
vector overflow_trap = 4
vector bound_trap = 5
vector invalid_trap = 6
vector coprocessor_not_avail_trap = 7
vector double_trap = 8
vector segment_trap = 9
vector invalid_tss_trap = 10
vector segmentnotpresent_trap = 11
vector stack_trap = 12
vector protection_trap = 13
vector page_fault_trap = 14
vector coprocessor_trap = 16
vector syscall_trap = 20
vector timer_intr = 32
vector kdb_intr = 33

-- The least privileged ring whose code may call the handler by an `int`.
abbrev pub caller : Handler → ℕ
caller divide_trap = 0
caller debug_trap = 0
caller timer_intr = 0
caller kdb_intr = 0
caller h = 3

abbrev pub stops_interrupts : Handler → Bool
stops_interrupts syscall_trap = true
stops_interrupts timer_intr = true
stops_interrupts kdb_intr = true
stops_interrupts h = false

-- The gate as the processor will use it.
pub record IsInstalled (addr : ℕ) (h : Handler) (g : Gate) : Type 0 where
  pub present : is_present g ≡ true
  pub address : handler g ≡ addr
  pub segment : g.selector ≡ 0x08
  pub called_from : ring g ≡ caller h
  pub type : gate_type g ≡ (if stops_interrupts h then 14 else 15)

-- Each handler behind its number, and the gates of the other numbers as they were.
abbrev pub AllSet : (Handler → ℕ) → (before after : ℕ → Gate) → Type 0
AllSet entries idt idt' =
    ((h : Handler) → IsInstalled (entries h) h (idt' (vector h)))
    × ((n : ℕ) → ((h : Handler) → vector h ≢ n) → idt' n ≡ idt n)

-- The type that a gate of the handler has.
abbrev kind_of : Handler → ℕ
kind_of divide_trap = 0x8f
kind_of debug_trap = 0x8f
kind_of breakpoint_trap = 0xef
kind_of overflow_trap = 0xef
kind_of bound_trap = 0xef
kind_of invalid_trap = 0xef
kind_of coprocessor_not_avail_trap = 0xef
kind_of double_trap = 0xef
kind_of segment_trap = 0xef
kind_of invalid_tss_trap = 0xef
kind_of segmentnotpresent_trap = 0xef
kind_of stack_trap = 0xef
kind_of protection_trap = 0xef
kind_of page_fault_trap = 0xef
kind_of coprocessor_trap = 0xef
kind_of syscall_trap = 0xee
kind_of timer_intr = 0x8e
kind_of kdb_intr = 0x8e

set_gates-gate_of :
    (entries : Handler → ℕ) (idt : ℕ → Gate) (h : Handler)
    → set_gates entries trap_gates idt (vector h) ≡ gate_of (entries h) (kind_of h)
unfolding set_idt_desc
set_gates-gate_of entries idt divide_trap = refl
set_gates-gate_of entries idt debug_trap = refl
set_gates-gate_of entries idt breakpoint_trap = refl
set_gates-gate_of entries idt overflow_trap = refl
set_gates-gate_of entries idt bound_trap = refl
set_gates-gate_of entries idt invalid_trap = refl
set_gates-gate_of entries idt coprocessor_not_avail_trap = refl
set_gates-gate_of entries idt double_trap = refl
set_gates-gate_of entries idt segment_trap = refl
set_gates-gate_of entries idt invalid_tss_trap = refl
set_gates-gate_of entries idt segmentnotpresent_trap = refl
set_gates-gate_of entries idt stack_trap = refl
set_gates-gate_of entries idt protection_trap = refl
set_gates-gate_of entries idt page_fault_trap = refl
set_gates-gate_of entries idt coprocessor_trap = refl
set_gates-gate_of entries idt syscall_trap = refl
set_gates-gate_of entries idt timer_intr = refl
set_gates-gate_of entries idt kdb_intr = refl

-- What the type of a gate says, by its handler.
kind_lem :
    (h : Handler)
    → (kind_of h < 2 ^ 8)
      × (kind_of h / 2 ^ 7 ≡ 1)
      × (kind_of h / 2 ^ 5 % 4 ≡ caller h)
      × (kind_of h % 2 ^ 5 ≡ (if stops_interrupts h then 14 else 15))
kind_lem divide_trap = (omega arith, refl, refl, refl)
kind_lem debug_trap = (omega arith, refl, refl, refl)
kind_lem breakpoint_trap = (omega arith, refl, refl, refl)
kind_lem overflow_trap = (omega arith, refl, refl, refl)
kind_lem bound_trap = (omega arith, refl, refl, refl)
kind_lem invalid_trap = (omega arith, refl, refl, refl)
kind_lem coprocessor_not_avail_trap = (omega arith, refl, refl, refl)
kind_lem double_trap = (omega arith, refl, refl, refl)
kind_lem segment_trap = (omega arith, refl, refl, refl)
kind_lem invalid_tss_trap = (omega arith, refl, refl, refl)
kind_lem segmentnotpresent_trap = (omega arith, refl, refl, refl)
kind_lem stack_trap = (omega arith, refl, refl, refl)
kind_lem protection_trap = (omega arith, refl, refl, refl)
kind_lem page_fault_trap = (omega arith, refl, refl, refl)
kind_lem coprocessor_trap = (omega arith, refl, refl, refl)
kind_lem syscall_trap = (omega arith, refl, refl, refl)
kind_lem timer_intr = (omega arith, refl, refl, refl)
kind_lem kdb_intr = (omega arith, refl, refl, refl)

gate_of-IsInstalled :
    (addr : ℕ) (h : Handler) → addr < 2 ^ 64 → IsInstalled addr h (gate_of addr (kind_of h))
unfolding gate_of
gate_of-IsInstalled addr h small =
    let (byte, set, ring, type) = kind_lem h in
    let e : kind_of h % 2 ^ 8 ≡ kind_of h = omega arith in
    record {
      present = rw (e, set) refl;
      address = gate_of-handler addr (kind_of h) small;
      segment = refl;
      called_from = rw e ring;
      type = rw e type;
    }

-- The gates of a list have the numbers of their handlers.
abbrev Numbered : List (ℕ × Handler × ℕ) → Type 0
Numbered [] = Unit
Numbered ((n, h, kind) ∷ l) = (n % 2 ^ 8 ≡ vector h) × Numbered l

trap_gates-Numbered : Numbered trap_gates
trap_gates-Numbered = ground arith

set_gates-outside :
    (entries : Handler → ℕ) (l : List (ℕ × Handler × ℕ)) (idt : ℕ → Gate) (n : ℕ)
    → Numbered l
    → ((h : Handler) → vector h ≢ n)
    → set_gates entries l idt n ≡ idt n
unfolding set_idt_desc
set_gates-outside entries [] idt n numbered out = refl
set_gates-outside entries ((m, h, kind) ∷ l) idt n (here, rest) out =
    let other : (vector h == n) ≡ false = ground (arith, out h) in
    set_gates-outside entries l (set_idt_desc m (entries h) kind idt) n rest out
    ∙ rw (here, other) refl

-- For handlers at addresses of 64 bits: after `init_trap` the processor finds behind the number of
-- each of the eighteen handlers a present gate with that handler's address and the kernel's code
-- segment. Any ring may call it, but for those of the division, the debugger, the timer and the
-- keyboard, and the ones of the system call, the timer and the keyboard turn interrupts off. The gates
-- of the other numbers are as they were.
pub init_trap-AllSet :
    (entries : Handler → ℕ) (idt : ℕ → Gate)
    → ((h : Handler) → entries h < 2 ^ 64)
    → AllSet entries idt (init_trap entries idt)
unfolding init_trap
init_trap-AllSet entries idt small = (
  λ h.
      subst (IsInstalled (entries h) h) (sym (set_gates-gate_of entries idt h))
        (gate_of-IsInstalled (entries h) h (small h)),
  λ n out. set_gates-outside entries trap_gates idt n trap_gates-Numbered out,
)
