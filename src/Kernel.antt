-- ===== src/Kernel.antt =====
-- The kernel's file system: kernel/fs over kernel/include.
pub mod Host
pub mod Memory
pub mod Block
pub mod Inodes
pub mod ReadWrite
pub mod Namei
pub mod Files
pub mod Status
pub mod Sample
mod Tests
mod TableTests
mod WriteTests
mod BlockTests
pub mod Bitmap
