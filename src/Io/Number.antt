-- ===== src/Io/Number.antt =====
-- The numbers of the formatted output, _print_int and _get_dec of kernel/src/io/output.c. The
-- characters that are put in `out` are a list, and their number is the result.
pub mod Digits
pub mod Room
pub mod Behind
pub mod Numeral
mod Tests
use lambda_os.Prelude.{
  ℕ, zero, suc, ◌+◌, ◌-◌, ◌*◌, ◌/◌, ◌%◌, ◌^◌, Bool, true, false, not, ◌&&◌, Option, none, some,
  List, [], ◌∷◌, ◌++◌, ◌==◌, leb, replicate, if◌then◌else◌, get_or, length,
}

-- PRINTFLAG_UNSIGNED, PADZERO, POSSIGN, POSSPACE and UPPERCASE are the bits 0 to 4.
abbrev pub flag_set : ℕ → ℕ → Bool
flag_set flags k = not (flags / 2 ^ k % 2 == 0)

-- `nums`
abbrev pub nums : Bool → List ℕ
nums upper =
    48
    ∷ 49
    ∷ 50
    ∷ 51
    ∷ 52
    ∷ 53
    ∷ 54
    ∷ 55
    ∷ 56
    ∷ 57
    ∷ (if upper then 65 ∷ 66 ∷ 67 ∷ 68 ∷ 69 ∷ 70 ∷ [] else 97 ∷ 98 ∷ 99 ∷ 100 ∷ 101 ∷ 102 ∷ [])

-- The loop that fills `ans`, the last digit first; `none` is out of fuel.
pub digits : ℕ → Bool → ℕ → ℕ → Option (List ℕ)
digits zero upper base num = if num == 0 then some [] else none
digits (suc f) upper base num =
    let rest = digits f upper base (num / base) in
    if num == 0
    then some []
    else elim rest [ none ↦ none | some ds ↦ some (get_or (nums upper) (num % base) 48 ∷ ds) ]

-- `ans`, where 0 has one digit.
abbrev pub or_zero : List ℕ → List ℕ
or_zero [] = 48 ∷ []
or_zero (d ∷ ds) = d ∷ ds

-- The digits from the last one of `ans` on.

abbrev pub backwards : List ℕ → List ℕ → List ℕ
backwards [] s = s
backwards (d ∷ ds) s = backwards ds (d ∷ s)

-- The sign.
abbrev pub sign : Bool → ℕ → List ℕ
sign neg flags =
    if neg
    then 45 ∷ []
    else if flag_set flags 2
    then 43 ∷ []
    else if flag_set flags 3
    then 32 ∷ []
    else []

-- Is the number printed with a minus sign, and the number without it.
abbrev pub is_neg : ℕ → ℕ → Bool
is_neg num flags = not (flag_set flags 0) && leb (2 ^ 63) num

abbrev pub size_of : ℕ → ℕ → ℕ
size_of num flags = if is_neg num flags then (2 ^ 64 - num) % 2 ^ 64 else num

-- The characters for the digits in `ans`.
abbrev pub formatted : ℕ → ℕ → ℕ → List ℕ → List ℕ
formatted num pad flags ans =
    sign (is_neg num flags) flags
    ++ replicate (pad - length ans) (if flag_set flags 1 then 48 else 32)
    ++ backwards ans []

-- `_print_int`: its result and the characters. A 64-bit number has 64 digits at most.
unfoldable pub print_int : ℕ → ℕ → ℕ → ℕ → Option (ℕ × List ℕ)
unfolding digits
print_int num base pad flags = elim (digits 64 (flag_set flags 4) base (size_of num flags)) [
  | none ↦ none
  | some ds ↦
      some (length (formatted num pad flags (or_zero ds)), formatted num pad flags (or_zero ds))
]

-- The loop of `_get_dec`; the end of the list is the end of the string.
pub get_dec_loop : ℕ → List ℕ → ℕ × List ℕ
get_dec_loop n [] = (n, [])
get_dec_loop n (c ∷ s) =
    if leb 48 c && leb c 57 then get_dec_loop ((n * 10 + (c - 48)) % 2 ^ 32) s else (n, c ∷ s)

-- `_get_dec`: the number, and the string behind it.
pub get_dec : List ℕ → ℕ × List ℕ
unfolding get_dec_loop
get_dec s = get_dec_loop 0 s
