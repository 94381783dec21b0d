-- ===== src/Std/Bytes.antt =====
-- memcpy, memset, memmove and memcmp of kernel/src/std/string.c, without the address tests that a
-- build with CHECK_STRICTNESS adds. A call that writes returns the memory.
pub mod Copy
pub mod Compare
use lambda_os.Prelude.{ℕ, zero, suc, ◌+◌, ◌%◌, ◌^◌, ◌==◌, ltb, if◌then◌else◌}
use lambda_os.Prelude.Word.{sub32}
use lambda_os.Std.Memory.{Memory, store}

-- `while (n--) *dp++ = *sp++;`
pub memcpy : Memory → ℕ → ℕ → ℕ → Memory
memcpy m dest src zero = m
memcpy m dest src (suc n) = memcpy (store m dest (m src)) (dest + 1) (src + 1) n

pub memset : Memory → ℕ → ℕ → ℕ → Memory
memset m s c zero = m
memset m s c (suc n) = memset (store m s (c % 2 ^ 8)) (s + 1) c n

-- `while (n--) *--_dst = *--_src;` with the pointers `n` bytes ahead.
pub copy_down : Memory → ℕ → ℕ → ℕ → Memory
copy_down m dst src zero = m
copy_down m dst src (suc n) = copy_down (store m (dst + n) (m (src + n))) dst src n

unfoldable pub memmove : Memory → ℕ → ℕ → ℕ → Memory
unfolding memcpy copy_down
memmove m dst src n = if ltb dst src then memcpy m dst src n else copy_down m dst src n

-- The scan goes from the last byte to the first.
pub memcmp : Memory → ℕ → ℕ → ℕ → ℕ
memcmp m s1 s2 zero = 0
memcmp m s1 s2 (suc n) =
    if m (s1 + n) == m (s2 + n) then memcmp m s1 s2 n else sub32 (m (s1 + n)) (m (s2 + n))
