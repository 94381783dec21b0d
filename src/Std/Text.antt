-- ===== src/Std/Text.antt =====
-- The string functions of kernel/src/std/string.c, without the address tests that a build with
-- CHECK_STRICTNESS adds. A loop up to the end of a string runs on fuel; `none` is out of fuel.
-- A character is a byte, the number that the comparison of two `char` of one sign depends on.
pub mod Length
pub mod Order
pub mod Copy
use lambda_os.Prelude.{
  ℕ, zero, suc, ◌+◌, ◌%◌, ◌^◌, Bool, true, false, ◌&&◌, not, Option, none, some, ◌==◌, ltb,
  if◌then◌else◌,
}
use lambda_os.Prelude.Word.{sub32}
use lambda_os.Std.Memory.{Memory, store}

-- `while(str[i]) { i++; }`
strlen_loop : ℕ → Memory → ℕ → ℕ → Option ℕ
strlen_loop zero m str i = none
strlen_loop (suc f) m str i =
    let rest = strlen_loop f m str (i + 1) in if m (str + i) == 0 then some i else rest

pub strlen : ℕ → Memory → ℕ → Option ℕ
unfolding strlen_loop
strlen fuel m str = strlen_loop fuel m str 0

pub strcmp : ℕ → Memory → ℕ → ℕ → Option ℕ
strcmp zero m str1 str2 = none
strcmp (suc f) m str1 str2 =
    let rest = strcmp f m (str1 + 1) (str2 + 1) in
    if not (m str1 == 0) && m str1 == m str2 then rest else some (sub32 (m str1) (m str2))

-- `num` is a `size_t`, and `--num` wraps.
pub strncmp : ℕ → Memory → ℕ → ℕ → ℕ → Option ℕ
strncmp zero m str1 str2 num = none
strncmp (suc f) m str1 str2 num =
    let rest = strncmp f m (str1 + 1) (str2 + 1) (sub32 num 1) in
    if (not (m str1 == 0) && m str1 == m str2) && not (sub32 num 1 == 0)
    then rest
    else some (sub32 (m str1) (m str2))

-- The address found, or `some none` for NULL.
pub strchr : ℕ → Memory → ℕ → ℕ → Option (Option ℕ)
strchr zero m s c = none
strchr (suc f) m s c =
    let rest = strchr f m (s + 1) c in
    if m s == 0 then some none else if m s == c % 2 ^ 8 then some (some s) else rest

strcpy_loop : ℕ → Memory → ℕ → ℕ → ℕ → Option Memory
strcpy_loop zero m dest src i = none
strcpy_loop (suc f) m dest src i =
    let rest = strcpy_loop f (store m (dest + i) (m (src + i))) dest src (i + 1) in
    if m (src + i) == 0 then some (store m (dest + i) 0) else rest

pub strcpy : ℕ → Memory → ℕ → ℕ → Option Memory
unfolding strcpy_loop
strcpy fuel m dest src = strcpy_loop fuel m dest src 0

-- The second loop of strncpy, with `left` bytes to go.
strncpy_pad : Memory → ℕ → ℕ → ℕ → Memory
strncpy_pad m dest i zero = m
strncpy_pad m dest i (suc left) = strncpy_pad (store m (dest + i) 0) dest (i + 1) left

-- Both loops, from `i` on, with `left` equal to `n - i`.
strncpy_loop : Memory → ℕ → ℕ → ℕ → ℕ → Memory
unfolding strncpy_pad
strncpy_loop m dest src i zero = m
strncpy_loop m dest src i (suc left) =
    let rest = strncpy_loop (store m (dest + i) (m (src + i))) dest src (i + 1) left in
    if m (src + i) == 0 then strncpy_pad m dest i (suc left) else rest

pub strncpy : Memory → ℕ → ℕ → ℕ → Memory
unfolding strncpy_loop
strncpy m dest src n = strncpy_loop m dest src 0 n
