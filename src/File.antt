-- ===== src/File.antt =====
-- Open files and their system calls: kernel/file.c.
pub mod State
pub mod Transfer
pub mod Calls
mod Tests
