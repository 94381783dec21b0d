-- ===== src/Mm.antt =====
-- The memory management of kernel/src/mm.
pub mod Alloc
