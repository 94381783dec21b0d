-- ===== src/Fs.antt =====
-- The virtual file system of kernel/src/fs/fs.c: its tree of files, and what it does with them, and
-- the file calls of a process.
pub mod Tree
pub mod Path
pub mod Ops
pub mod Stream
pub mod Initrd
mod Tests
pub mod Procfs
