-- ===== src/Fs.antt =====
-- kernel/fs.c: the block bitmap, the blocks of an inode and the root directory. The disk and the
-- inode table are those in memory; a pointer to an inode is its number.
pub mod State
pub mod Bitmap
pub mod Blocks
pub mod Directory
mod Tests
