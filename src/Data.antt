-- ===== src/Data.antt =====
-- The containers of kernel/src/data.
pub mod Cbuff
pub mod Llist
