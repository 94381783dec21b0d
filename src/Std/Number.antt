-- ===== src/Std/Number.antt =====
-- strtoul of kernel/src/std/stdlib.c, and what it uses of kernel/inc/ctype.h. An unsigned long has 32
-- bits. A loop up to the end of a string runs on fuel; `none` is out of fuel.
pub mod Value
use lambda_os.Prelude.{
  ℕ, zero, suc, ◌+◌, ◌-◌, ◌*◌, ◌%◌, ◌^◌, Bool, true, false, ◌&&◌, ◌||◌, not, Option, none, some,
  ◌==◌, ltb, leb, if◌then◌else◌,
}
use lambda_os.Prelude.Word.{is_nonneg}
use lambda_os.Std.Memory.{Memory}

abbrev pub is_space : ℕ → Bool
is_space c = (c == b' ') || (c == 9) || (c == 11) || (c == 13) || (c == 10)

abbrev pub is_num : ℕ → Bool
is_num c = leb b'0' c && leb c b'9'

abbrev pub is_upper : ℕ → Bool
is_upper c = leb b'A' c && leb c b'Z'

abbrev pub is_lower : ℕ → Bool
is_lower c = leb b'a' c && leb c b'z'

abbrev pub is_alpha : ℕ → Bool
is_alpha c = is_lower c || is_upper c

abbrev pub to_lower : ℕ → ℕ
to_lower c = if is_lower c then c else if is_upper c then c + 32 else 0

-- `_conv_checkchar`; the comparison with `base - 10`, which may be below 0, has the 10 on its left.
abbrev pub conv_checkchar : ℕ → ℕ → Bool
conv_checkchar c base =
    (is_num c || is_alpha c)
    && not (is_num c && leb base (c - b'0'))
    && not (is_alpha c && leb base (to_lower c - b'a' + 10))

-- `_conv_convertchar`
abbrev pub conv_convertchar : ℕ → ℕ
conv_convertchar c = if is_num c then c - b'0' else if is_alpha c then to_lower c - b'a' + 10 else 1

-- `while(isspace(*ptr)) { ptr++; }`
pub skip_space : ℕ → Memory → ℕ → Option ℕ
skip_space zero m p = none
skip_space (suc f) m p =
    let rest = skip_space f m (p + 1) in if is_space (m p) then rest else some p

-- The base and the pointer behind a prefix.
pub prefix : Memory → ℕ → ℕ → ℕ × ℕ
prefix m p base =
    let (base', p') =
      if m p == b'0'
      then if (m (p + 1) == b'x') || (m (p + 1) == b'X')
        then if (base == 0) || (base == 16) then (16, p + 2) else (base, p)
        else if base == 0
        then (8, p)
        else (base, p)
      else (base, p) in
    (if base' == 0 then 10 else base', p')

-- The value and the pointer at the end.
pub conv_loop : ℕ → Memory → ℕ → ℕ → ℕ → Option (ℕ × ℕ)
conv_loop zero m p base val = none
conv_loop (suc f) m p base val =
    let step = (val * base % 2 ^ 32 + conv_convertchar (m p)) % 2 ^ 32 in
    let rest = conv_loop f m (p + 1) base step in
    if not (m p == 0) && conv_checkchar (m p) base then rest else some (val, p)

-- The result, and what `*endptr` is set to, `none` where it is not set.
pub strtoul : ℕ → Memory → ℕ → ℕ → Option (ℕ × Option ℕ)
unfolding skip_space prefix conv_loop
strtoul fuel m ptr base =
    let run : Option (ℕ × Option ℕ) = elim (skip_space fuel m ptr) [
      | none ↦ none
      | some p ↦
          let (base', p') = prefix m p base in
          elim (conv_loop fuel m p' base' 0) [ none ↦ none | some (val, q) ↦ some (val, some q) ]
    ] in
    if not (is_nonneg base) || ltb 35 base then some (0, none) else run
