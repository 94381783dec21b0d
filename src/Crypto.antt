-- ===== src/Crypto.antt =====
-- The decompressors of kernel/src/crypto.
pub mod Lzo
pub mod Lzop
