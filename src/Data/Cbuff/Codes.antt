-- ===== src/Data/Cbuff/Codes.antt =====
-- The error numbers that the buffer returns.
use lambda_os.Prelude.{ℕ}

abbrev pub enomem : ℕ
enomem = 12

abbrev pub einval : ℕ
einval = 22

abbrev pub enodata : ℕ
enodata = 513
