-- ===== src/Io/Number/Tests.antt =====
-- Numbers, and instances of the theorems on them.
use lambda_os.Prelude.{
  ◌-◌, ℕ, ◌^◌, ◌≤◌, ◌≡◌, ◌⊎◌, inl, inr, refl, some, List, [], ◌∷◌, ◌++◌, length, arith,
}
use lambda_os.Io.Number.{flag_set, digits, or_zero, size_of, print_int, get_dec}
use lambda_os.Io.Number.Digits.{get_dec-print_int}
use lambda_os.Io.Number.Room.{print_int_fits}

-- "-00ff" for -255 in base 16, with padding to four digits.
negative : print_int (2 ^ 64 - 255) 16 4 2 ≡ some (5, 45 ∷ 48 ∷ 48 ∷ 102 ∷ 102 ∷ [])
unfolding print_int
negative = refl

get_dec-print_int_example :
    (out : List ℕ) × (print_int 1203 10 6 3 ≡ some (length out, out))
    × (get_dec (out ++ 120 ∷ []) ≡ (1203, 120 ∷ []))
get_dec-print_int_example =
    get_dec-print_int 1203 6 3 (120 ∷ []) (omega arith) refl refl (inl refl) (inr (omega arith))

octal_room :
    (ds : List ℕ) × (digits 64 (flag_set 0 4) 8 (size_of (2 ^ 63) 0) ≡ some ds)
    × (length (or_zero ds) ≤ 22)
    × (out : List ℕ) × (print_int (2 ^ 63) 8 4 0 ≡ some (length out, out))
    × ((length out ≤ 5) ⊎ (length out ≤ 23))
octal_room = print_int_fits (2 ^ 63) 8 4 0 (omega arith) (omega arith)
