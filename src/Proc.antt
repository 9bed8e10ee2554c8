-- ===== src/Proc.antt =====
-- Processes: kernel/proc.c, as it is built for amd64.
pub mod State
pub mod Table
pub mod Schedule
pub mod Space
pub mod Life
pub mod Load
mod Tests
