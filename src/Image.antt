-- ===== src/Image.antt =====
-- The builder of disk images: scripts/mkxxx.c.
pub mod State
pub mod Blank
pub mod Blocks
pub mod Build
mod Tests
