-- ===== src/Ext2.antt =====
-- File System: the tools for ext2 disk images.
pub mod Image
pub mod Path
pub mod Directory
pub mod Alloc
pub mod Insert
pub mod Ls
pub mod Mkdir
pub mod Rm
pub mod Ln
pub mod Cp
pub mod Lookup
pub mod Accounts
pub mod Commands
mod Tests
