-- ===== src/Io.antt =====
-- The output of the kernel, kernel/src/io.
pub mod Number
pub mod Format
