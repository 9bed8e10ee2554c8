-- ===== src/Proc/Load.antt =====
-- A program loaded into a process: `load_img` and `create_proc` of kernel/proc.c, as they are built for amd64. The
-- image is the bytes behind `binary`, which the kernel's part of the memory holds and the loading leaves alone.
pub mod Copied
pub mod Kept
pub mod Segments
pub mod Loaded
pub mod Whole
pub mod Created
mod Tests
use myos_git.Prelude.{
  ℕ, zero, suc, ◌+◌, ◌-◌, ◌*◌, ◌/◌, ◌%◌, ◌^◌, Option, none, some, ◌==◌, ltb, if◌then◌else◌, bit_or,
  update,
}
use myos_git.Prelude.Int.{ℤ, pos}
use myos_git.Prelude.Result.{Res, ok, fault, and_then}
use myos_git.Mm.State.{Mm}
use myos_git.Mm.{alloc_page, frame_of, insert_page, page_size, present, table_flags}
use myos_git.Mm.Bytes.{put_byte}
use myos_git.Mm.Tables.{entry_at}
use myos_git.Boot.{
  little_endian, magic, e_entry, e_phoff, e_phnum, p_type, p_offset, pt_load, phdr_size,
}
use myos_git.Proc.State.{Proc, System, Status, runnable, set_proc, lift_mm}
use myos_git.Proc.Table.{alloc_proc}
use myos_git.Proc.Schedule.{Outcome, enter}
use myos_git.Proc.Space.{alloc_vm, memmap, ustacktop}
use myos_git.Proc.Life.{maxopenfile}

abbrev pub p_vaddr : (ℕ → ℕ) → ℕ → ℕ
p_vaddr binary phdr = little_endian binary 8 (phdr + 16)

abbrev pub p_memsz : (ℕ → ℕ) → ℕ → ℕ
p_memsz binary phdr = little_endian binary 8 (phdr + 40)

-- A byte that the kernel writes at a user's address, which the processor translates by the tables; an entry that is
-- not present is a page fault in the kernel.
unfoldable pub store_byte : (pgdir va b : ℕ) → Mm → Res Mm ℤ
store_byte pgdir va b s =
    let entry = entry_at s.mem pgdir va in
    if present entry
    then ok (pos 0)
        (record s { mem = put_byte (frame_of entry * page_size + va % page_size) b s.mem })
    else fault

-- `memcpy` of `n` bytes to a user's address.
unfoldable pub copy_bytes : (n pgdir va : ℕ) → (ℕ → ℕ) → Mm → Res Mm ℤ
unfolding store_byte
copy_bytes zero pgdir va bytes s = ok (pos 0) s
copy_bytes (suc n) pgdir va bytes s =
    and_then (store_byte pgdir va (bytes 0) s)
      (λ r t. copy_bytes n pgdir (va + 1) (λ i. bytes (i + 1)) t)

-- `sizeof` of the segment in memory, as the unsigned int that `memmap` and `memcpy` take.
abbrev pub size_in_memory : (ℕ → ℕ) → ℕ → ℕ
size_in_memory binary phdr = p_memsz binary phdr % 2 ^ 32

-- The case of PT_LOAD, and the body of the loop: the bytes copied are as many as the segment has in memory.
unfoldable pub load_pages : (pgdir : ℕ) → (ℕ → ℕ) → (phdr : ℕ) → Mm → Res Mm ℤ
load_pages pgdir binary phdr s =
    and_then (memmap pgdir (p_vaddr binary phdr) (size_in_memory binary phdr) s) (λ r t.
      copy_bytes (size_in_memory binary phdr) pgdir (p_vaddr binary phdr)
        (λ i. binary (p_offset binary phdr + i)) t)

unfoldable pub load_segment : (pgdir : ℕ) → (ℕ → ℕ) → (phdr : ℕ) → Mm → Res Mm ℤ
load_segment pgdir binary phdr s =
    let load = load_pages pgdir binary phdr s in
    if p_type binary phdr == pt_load then load else ok (pos 0) s

-- The loop from the program header at `phdr` on, with the rounds left.
unfoldable pub load_segments : (n pgdir : ℕ) → (ℕ → ℕ) → (phdr : ℕ) → Mm → Res Mm ℤ
load_segments zero pgdir binary phdr s = ok (pos 0) s
load_segments (suc n) pgdir binary phdr s =
    and_then (load_segment pgdir binary phdr s)
      (λ r t. load_segments n pgdir binary (phdr + phdr_size) t)

-- The stack's page.
unfoldable pub give_page : (pgdir va : ℕ) → Option ℕ × Mm → Res Mm ℤ
give_page pgdir va (pp, s) = insert_page pgdir va pp table_flags s

unfoldable pub load_space : (pgdir : ℕ) → (ℕ → ℕ) → Mm → Res Mm ℤ
load_space pgdir binary s =
    and_then (load_segments (e_phnum binary 0) pgdir binary (e_phoff binary 0) s)
      (λ r t. give_page pgdir (ustacktop - page_size) (alloc_page 1 t))

-- The places of rip, cs, eflags, rsp and ss in `struct pt_regs`.
abbrev pub reg_rip : ℕ
reg_rip = 17

abbrev pub reg_cs : ℕ
reg_cs = 18

abbrev pub reg_eflags : ℕ
reg_eflags = 19

abbrev pub reg_rsp : ℕ
reg_rsp = 20

abbrev pub reg_ss : ℕ
reg_ss = 21

abbrev pub set_reg : (p i v : ℕ) → System → System
set_reg p i v s = set_proc p (record (s.procs p) { pregs = update (s.procs p).pregs i v }) s

-- The registers of an entry into the image.
unfoldable pub start_at : (p : ℕ) → (ℕ → ℕ) → System → System
start_at p binary s = set_reg p reg_rip (e_entry binary 0) (set_reg p reg_rsp ustacktop s)

unfoldable pub load_in : (p : ℕ) → Option ℕ → (ℕ → ℕ) → System → Res System ℤ
load_in p none binary s = fault
load_in p (some pgdir) binary s =
    and_then (lift_mm (load_space pgdir binary s.mm) s) (λ r t. ok (pos 0) (start_at p binary t))

-- Without the magic number it returns, and its result is not looked at.
unfoldable pub load_img : (p : ℕ) → (ℕ → ℕ) → System → Res System ℤ
unfolding load_in
load_img p binary s =
    let load = load_in p (s.procs p).pgdir binary s in if magic binary 0 then load else ok (pos 0) s

-- The block that `create_proc` sets up: the registers, the address space and the descriptors.
unfoldable pub prepared : (p pgdir : ℕ) → Mm → System → System
prepared p pgdir m s =
    let regs =
      set_reg p reg_eflags (bit_or ((s.procs p).pregs reg_eflags) 0x200)
        (set_reg p reg_ss 0x23 (set_reg p reg_cs 0x1b s)) in
    let block = regs.procs p in
    let fdtable : ℕ → Option ℕ = λ fd. if ltb fd maxopenfile then none else block.fdtable fd in
    record (set_proc p (record block { pgdir = some pgdir; fdtable = fdtable }) regs) { mm = m }

-- Without a page for the top-level table the processor is given the address of NULL.
unfoldable pub set_up : (p : ℕ) → Option ℕ × Mm → System → Res System ℤ
set_up p (none, m) s = fault
set_up p (some pgdir, m) s = ok (pos 0) (prepared p pgdir m s)

-- `if(current == NULL) current = p` comes before `run_proc`, which sets it to p in any case.
unfoldable pub start_proc : ℕ → System → Res System Outcome
start_proc p s =
    let t = set_proc p (record (s.procs p) { status = runnable }) s in
    ok (enter p t).0 (enter p t).1

unfoldable pub create_proc : (ℕ → ℕ) → System → Res System Outcome
create_proc binary s = and_then (alloc_proc s) (λ p t.
    and_then (set_up p (alloc_vm t.kpgdir t.mm) t)
      (λ r u. and_then (load_img p binary u) (λ r' w. start_proc p w)))
