-- ===== src/User.antt =====
-- The C library of user space, user/lib.
pub mod Malloc
pub mod Environ
