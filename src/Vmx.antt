-- ===== src/Vmx.antt =====
-- The virtual machine monitor, kernel/amd64/vmx.c with vmx.h, ept.h and msr_index.h.
pub mod State
pub mod Control
pub mod Create
pub mod Memory
pub mod Exit
mod Tests
