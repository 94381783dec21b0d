-- ===== src/Std.antt =====
-- The C library of the kernel, kernel/src/std, over a flat memory.
pub mod Memory
pub mod Bytes
pub mod Text
pub mod Number
pub mod Libgen
mod Tests
