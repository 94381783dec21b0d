-- ===== src/Io/Format.antt =====
-- The formatted output, `print` of kernel/src/io/output.c. The arguments stand in memory as the i386
-- calls leave them, one word for an `int`, a `long` or a pointer and two for a `long long` or a `double`,
-- and the format and the characters that are put in `out` are lists. The format is read on fuel, and the
-- strings on the fuel `sfuel`; `none` is out of fuel.
pub mod Count
pub mod Returns
pub mod Conversion
pub mod Printed
pub mod Pieces
mod Tests
use lambda_os.Prelude.{
  ℕ, zero, suc, ◌+◌, ◌-◌, ◌*◌, ◌/◌, ◌%◌, ◌^◌, Bool, true, false, not, ◌&&◌, ◌||◌, Option, none,
  some, List, [], ◌∷◌, ◌++◌, ◌==◌, ltb, leb, if◌then◌else◌, length, take,
}
use lambda_os.Prelude.Word.{add32}
use lambda_os.Std.Memory.{Memory, word}
use lambda_os.Io.Number.{flag_set, print_int, get_dec}

-- What was read of a conversion; `size` is kept plus 2.
pub record Spec : Type 0 where
  pub is_in_spec : Bool
  pub size : ℕ
  pub width : ℕ
  pub precision : ℕ
  pub flags : ℕ

-- ZERO_ALL_VID
abbrev pub zero_all_vid : Spec
zero_all_vid = record { is_in_spec = false; size = 2; width = 0; precision = 0; flags = 0 }

-- The variables of `print`, with `varg` as the address of the next argument.
pub record Printing : Type 0 where
  pub spec : Spec
  pub varg : ℕ
  pub out : List ℕ
  pub nchars : ℕ

-- `flags |= 1UL << k`
abbrev pub set_flag : ℕ → ℕ → ℕ
set_flag flags k = if flag_set flags k then flags else flags + 2 ^ k

-- A number of `k` bits as a signed one, in 64 bits.
abbrev pub extend : ℕ → ℕ → ℕ
extend k v = if ltb (v * 2) (2 ^ k) then v else v + 2 ^ 64 - 2 ^ k

-- `_get_arg`: the argument, and the address of the next one.
abbrev pub get_arg : Memory → (varg size : ℕ) → ℕ × ℕ
get_arg m varg size =
    let w = word m varg in
    if size == 0
    then (w % 2 ^ 8, varg + 4)
    else if size == 1
    then (w % 2 ^ 16, varg + 4)
    else if size == 2
    then (w, varg + 4)
    else if size == 3
    then (extend 32 w, varg + 4)
    else if size == 4
    then (w + word m (varg + 4) * 2 ^ 32, varg + 8)
    else (0, varg)

-- `_sign_extend`
abbrev pub sign_extend : (val size : ℕ) → ℕ
sign_extend val size =
    if size == 0
    then extend 8 (val % 2 ^ 8)
    else if size == 1
    then extend 16 (val % 2 ^ 16)
    else if size == 2 || size == 3
    then extend 32 (val % 2 ^ 32)
    else val

-- The characters that lead to a conversion: sizes and flags. Any other one is passed over.
pub modify_spec : ℕ → Spec → Spec
modify_spec c spec =
    if c == 108
    then record spec { size = if ltb spec.size 4 then spec.size + 1 else spec.size }
    else if c == 76
    then record spec { size = 3 }
    else if c == 104
    then record spec { size = if ltb 0 spec.size then spec.size - 1 else spec.size }
    else if c == 122 || c == 106 || c == 116
    then record spec { size = 2 }
    else if c == 43
    then record spec { flags = set_flag spec.flags 2 }
    else if c == 32
    then record spec { flags = set_flag spec.flags 3 }
    else if c == 45
    then record spec { flags = set_flag spec.flags 5 }
    else if c == 48
    then record spec { flags = set_flag spec.flags 1 }
    else spec

-- A number is printed, and the conversion ends.
pub put_int : (arg base width flags : ℕ) → Printing → Option Printing
put_int arg base width flags st = elim (print_int arg base (width % 2 ^ 8) flags) [
  | none ↦ none
  | some (n, cs) ↦
      some (record st { spec = zero_all_vid; out = st.out ++ cs; nchars = add32 st.nchars n })
]

-- 'd' and 'i', and 'u'.
pub put_decimal : Memory → (signed : Bool) → Printing → Option Printing
unfolding put_int
put_decimal m signed st =
    let spec = st.spec in
    let (arg, next) = get_arg m st.varg spec.size in
    put_int (if signed then sign_extend arg spec.size else arg) 10 spec.width
      (if signed then spec.flags else set_flag spec.flags 0) (record st { varg = next })

-- 'X' and 'x', 'o', and 'p'.
pub put_unsigned : Memory → (base width : ℕ) → (upper : Bool) → Printing → Option Printing
unfolding put_int
put_unsigned m base width upper st =
    let spec = st.spec in
    let (arg, next) = get_arg m st.varg spec.size in
    let flags = set_flag spec.flags 0 in
    put_int arg base width (if upper then set_flag flags 4 else flags) (record st { varg = next })

-- The characters of a string.
pub string_at : ℕ → Memory → ℕ → Option (List ℕ)
string_at zero m p = none
string_at (suc f) m p =
    let rest : Option (List ℕ) = elim (string_at f m (p + 1)) [
      | none ↦ none
      | some s ↦ some (m p ∷ s)
    ] in
    if m p == 0 then some [] else rest

-- "(null)"
abbrev pub null_text : List ℕ
null_text = 40 ∷ 110 ∷ 117 ∷ 108 ∷ 108 ∷ 41 ∷ []

-- 's': `nchars` grows by the length of the string, and a precision cuts what is put in `out`.
pub put_string : ℕ → Memory → Printing → Option Printing
unfolding string_at
put_string sfuel m st =
    let temp = word m st.varg in
    let precision = if st.spec.precision == 0 then 2 ^ 32 - 1 else st.spec.precision in
    elim (if temp == 0 then some null_text else string_at sfuel m temp) [
      | none ↦ none
      | some s ↦ some record {
        spec = zero_all_vid;
        varg = st.varg + 4;
        out = st.out ++ take precision s;
        nchars = add32 st.nchars (length s);
      }
    ]

-- 'c'
pub put_char : Memory → Printing → Printing
put_char m st = record {
  spec = zero_all_vid;
  varg = st.varg + 4;
  out = st.out ++ (word m st.varg % 2 ^ 8 ∷ []);
  nchars = add32 st.nchars 1;
}

-- An argument of `size` bytes is passed over, and the conversion ends.
abbrev pub pass_over : ℕ → Printing → Printing
pass_over size st = record st { spec = zero_all_vid; varg = st.varg + size }

-- The cases of the `switch` that read an argument, and those of `modify_spec`.
pub convert : ℕ → Memory → (c : ℕ) → Printing → Option Printing
unfolding put_decimal put_unsigned put_string put_char modify_spec
convert sfuel m c st =
    if c == 117
    then put_decimal m false st
    else if c == 100 || c == 105
    then put_decimal m true st
    else if c == 102 || c == 70 || c == 101 || c == 69 || c == 103 || c == 71 || c == 97 || c == 65
    then some (pass_over 8 st)
    else if c == 88
    then put_unsigned m 16 st.spec.width true st
    else if c == 120
    then put_unsigned m 16 st.spec.width false st
    else if c == 111
    then put_unsigned m 8 st.spec.width false st
    else if c == 115
    then put_string sfuel m st
    else if c == 99
    then some (put_char m st)
    else if c == 112
    then put_unsigned m 16 (if st.spec.width == 0 then 8 else st.spec.width) false st
    else if c == 110
    then some (pass_over 4 st)
    else some (record st { spec = modify_spec c st.spec })

-- The character `c` of a conversion with `rest` behind it: the variables, and where the format goes on.
pub in_spec : ℕ → Memory → (c : ℕ) → (rest : List ℕ) → Printing → Option (Printing × List ℕ)
unfolding convert
in_spec sfuel m c rest st =
    let spec = st.spec in
    if c == 37
    then some (
      record st {
        spec = record spec { is_in_spec = false };
        out = st.out ++ (37 ∷ []);
        nchars = add32 st.nchars 1;
      },
      rest,
    )
    else if leb 49 c && leb c 57
    then (let (n, behind) = get_dec (c ∷ rest) in
        some (record st { spec = record spec { width = n % 2 ^ 8 } }, behind))
    else if c == 46
    then (let (n, behind) = get_dec rest in
        some (record st { spec = record spec { precision = n % 2 ^ 8 } }, behind))
    else elim (convert sfuel m c st) [ none ↦ none | some st' ↦ some (st', rest) ]

-- A character outside a conversion.
abbrev pub outside : ℕ → Printing → Printing
outside c st =
    if c == 37
    then record st { spec = record st.spec { is_in_spec = true } }
    else record st { out = st.out ++ (c ∷ []); nchars = add32 st.nchars 1 }

-- The loop of `print`.
pub print_loop : ℕ → ℕ → Memory → List ℕ → Printing → Option Printing
unfolding in_spec
print_loop fuel sfuel m [] st = some st
print_loop zero sfuel m (c ∷ rest) st = none
print_loop (suc fuel) sfuel m (c ∷ rest) st =
    elim (if st.spec.is_in_spec then in_spec sfuel m c rest st else some (outside c st, rest)) [
      | none ↦ none
      | some (st', behind) ↦ print_loop fuel sfuel m behind st'
    ]

-- `print`: its result and the characters.
pub print : ℕ → ℕ → Memory → (format : List ℕ) → (varg : ℕ) → Option (ℕ × List ℕ)
unfolding print_loop
print fuel sfuel m format varg =
    elim (print_loop fuel sfuel m format
      record { spec = zero_all_vid; varg = varg; out = []; nchars = 0 }) [
        | none ↦ none
        | some st ↦ some (st.nchars, st.out)
      ]
