-- ===== src/Io/Number/Digits.antt =====
-- The digits of a number: how many there are, and that they are read as the number again.
use native.Mathlib.Nat.{pow-suc, mul-le-mul_left, div-lt_iff_lt-mul}
use mathlib.Core.List.{append_assoc}
use lambda_os.Prelude.{
  replicate, ℕ, zero, suc, ◌+◌, ◌-◌, ◌*◌, ◌/◌, ◌%◌, ◌^◌, ◌<◌, ◌≤◌, ◌≡◌, refl, ap, ◌∙◌, Bool, true,
  false, some, List, [], ◌∷◌, ◌++◌, ◌==◌, if◌then◌else◌, get_or, length, inl, inr, ◌⊎◌, Bool-cases,
  Option-cases, All, arith,
}
use lambda_os.Io.Number.{
  flag_set, nums, digits, or_zero, backwards, is_neg, size_of, formatted, print_int, get_dec_loop,
  get_dec,
}

-- The number of the digits, the last one first.
abbrev value : List ℕ → ℕ
value [] = 0
value (d ∷ ds) = d - 48 + 10 * value ds

abbrev IsDigit : ℕ → Type 0
IsDigit c = (48 ≤ c) × (c ≤ 57)

nums_digit : (upper : Bool) (r : ℕ) → r < 10 → get_or (nums upper) r 48 ≡ 48 + r
nums_digit upper zero h = refl
nums_digit upper (suc zero) h = refl
nums_digit upper (suc (suc zero)) h = refl
nums_digit upper (suc (suc (suc zero))) h = refl
nums_digit upper (suc (suc (suc (suc zero)))) h = refl
nums_digit upper (suc (suc (suc (suc (suc zero))))) h = refl
nums_digit upper (suc (suc (suc (suc (suc (suc zero)))))) h = refl
nums_digit upper (suc (suc (suc (suc (suc (suc (suc zero))))))) h = refl
nums_digit upper (suc (suc (suc (suc (suc (suc (suc (suc zero)))))))) h = refl
nums_digit upper (suc (suc (suc (suc (suc (suc (suc (suc (suc zero))))))))) h = refl
nums_digit upper (suc (suc (suc (suc (suc (suc (suc (suc (suc (suc r)))))))))) h =
    absurd (omega arith)

-- The digits of a number below a power of 8, in a base of at least 8.
pub digits_few :
    (k f : ℕ) (upper : Bool) (base num : ℕ)
    → 8 ≤ base
    → num < 8 ^ k
    → k ≤ f
    → (ds : List ℕ) × (digits f upper base num ≡ some ds) × (length ds ≤ k)
unfolding digits
digits_few zero zero upper base num b small enough = ([], ground (arith, small), omega arith)
digits_few zero (suc f) upper base num b small enough = ([], ground (arith, small), omega arith)
digits_few (suc k) zero upper base num b small enough = absurd (omega arith)
digits_few (suc k) (suc f) upper base num b small enough = elim (Bool-cases (num == 0)) [
  | inl none_left ↦ ([], ground (arith, none_left), omega arith)
  | inr more ↦
      let bound : num < 8 ^ k * base =
        omega (arith, pow-suc 8 k, mul-le-mul_left (8 ^ k) b, small) in
      let less : num / base < 8 ^ k = (div-lt_iff_lt-mul {k = base} (omega (arith, b))).1 bound in
      let (ds, runs, few) = digits_few k f upper base (num / base) b less (omega arith) in
      (get_or (nums upper) (num % base) 48 ∷ ds, ground (arith, more, runs), omega (arith, few))
]

-- A number below 2 ^ 32 in base 10: its digits have it as their value.
digits-value :
    (f : ℕ) (upper : Bool) (num : ℕ) (ds : List ℕ)
    → digits f upper 10 num ≡ some ds
    → (value ds ≡ num) × All IsDigit ds
unfolding digits
digits-value zero upper num ds h = elim (Bool-cases (num == 0)) [
  | inl none_left ↦
      let same : ds ≡ [] = ground (arith, h, none_left) in rw same (ground (arith, none_left), tt)
  | inr more ↦ ground (arith, h, more)
]
digits-value (suc f) upper num ds h = elim (Bool-cases (num == 0)) [
  | inl none_left ↦
      let same : ds ≡ [] = ground (arith, h, none_left) in rw same (ground (arith, none_left), tt)
  | inr more ↦ elim (Option-cases (digits f upper 10 (num / 10))) [
    | inl fails ↦ ground (arith, h, more, fails)
    | inr (es, runs) ↦
        let same : ds ≡ get_or (nums upper) (num % 10) 48 ∷ es = ground (arith, h, more, runs) in
        let digit = nums_digit upper (num % 10) (omega arith) in
        let (rest, good) = digits-value f upper (num / 10) es runs in
        rw (same, digit) (omega (arith, rest), ((omega arith, omega arith), good))
  ]
]

-- Digits are read back.
get_dec_loop-backwards :
    (ds s : List ℕ)
    → All IsDigit ds
    → value ds < 2 ^ 32
    → get_dec_loop 0 (backwards ds s) ≡ get_dec_loop (value ds) s
unfolding get_dec_loop
get_dec_loop-backwards [] s d small = refl
get_dec_loop-backwards (c ∷ ds) s d small =
    ground (arith, get_dec_loop-backwards ds (c ∷ s) d.1 (omega arith), d.0)

pub backwards-append : (ds s t : List ℕ) → backwards ds s ++ t ≡ backwards ds (s ++ t)
backwards-append [] s t = refl
backwards-append (d ∷ ds) s t = backwards-append ds (d ∷ s) t

-- Leading zeroes do not matter.
get_dec_loop_zeroes : (n : ℕ) (s : List ℕ) → get_dec_loop 0 (replicate n 48 ++ s) ≡ get_dec_loop 0 s
unfolding get_dec_loop
get_dec_loop_zeroes zero s = refl
get_dec_loop_zeroes (suc n) s = get_dec_loop_zeroes n s

-- The string does not go on with a digit.
abbrev pub NoDigit : List ℕ → Type 0
NoDigit [] = Unit
NoDigit (c ∷ s) = (c < 48) ⊎ (57 < c)

get_dec_loop_stops : (n : ℕ) (s : List ℕ) → NoDigit s → get_dec_loop n s ≡ (n, s)
unfolding get_dec_loop
get_dec_loop_stops n [] h = refl
get_dec_loop_stops n (c ∷ s) h = ground (arith, h)

-- Padded digits.
get_dec-padded :
    (n : ℕ) (ds rest : List ℕ)
    → All IsDigit ds
    → value ds < 2 ^ 32
    → NoDigit rest
    → get_dec ((replicate n 48 ++ backwards ds []) ++ rest) ≡ (value ds, rest)
unfolding get_dec
get_dec-padded n ds rest good small stop =
    ap (get_dec_loop 0) (
      append_assoc (replicate n 48) (backwards ds []) rest
      ∙ ap (◌++◌ (replicate n 48)) (backwards-append ds [] rest))
    ∙ get_dec_loop_zeroes n (backwards ds rest)
    ∙ get_dec_loop-backwards ds rest good small
    ∙ get_dec_loop_stops (value ds) rest stop

or_zero-value :
    (ds : List ℕ) → All IsDigit ds → (value (or_zero ds) ≡ value ds) × All IsDigit (or_zero ds)
or_zero-value [] good = (refl, ((omega arith, omega arith), tt))
or_zero-value (d ∷ ds) good = (refl, good)

pub print_int_runs :
    (num base pad flags : ℕ) (ds : List ℕ)
    → digits 64 (flag_set flags 4) base (size_of num flags) ≡ some ds
    → print_int num base pad flags
      ≡ some (length (formatted num pad flags (or_zero ds)), formatted num pad flags (or_zero ds))
unfolding print_int
print_int_runs num base pad flags ds runs = rw (runs, print_int) refl

not_neg : (num flags : ℕ) → num < 2 ^ 63 → is_neg num flags ≡ false
not_neg num flags small = elim (Bool-cases (flag_set flags 0)) [
  | inl unsigned ↦ rw unsigned refl
  | inr signed ↦ rw signed (ground (arith, small))
]

-- If a number is below 2 ^ 32, printed in base 10 with no sign for positive numbers and padded
-- with zeroes or not at all, and no digit follows, then _print_int returns the number of its
-- characters, and _get_dec of them gives the number and what follows.
pub get_dec-print_int :
    (num pad flags : ℕ) (rest : List ℕ)
    → num < 2 ^ 32
    → flag_set flags 2 ≡ false
    → flag_set flags 3 ≡ false
    → (flag_set flags 1 ≡ true) ⊎ (pad ≡ 0)
    → NoDigit rest
    → (out : List ℕ) × (print_int num 10 pad flags ≡ some (length out, out))
      × (get_dec (out ++ rest) ≡ (num, rest))
get_dec-print_int num pad flags rest small plus space zeroes stop =
    let (ds, runs, few) =
      digits_few 22 64 (flag_set flags 4) 10 num (omega arith) (omega arith) (omega arith) in
    let (same, good) = digits-value 64 (flag_set flags 4) num ds runs in
    let (same', good') = or_zero-value ds good in
    let n = pad - length (or_zero ds) in
    let low = not_neg num flags (omega arith) in
    let whole : size_of num flags ≡ num = rw low refl in
    let read = get_dec-padded n (or_zero ds) rest good' (omega (arith, same, same')) stop in
    let zero_char : ℕ = 48 in
    let padded : replicate n (if flag_set flags 1 then 48 else 32) ≡ replicate n zero_char =
      elim zeroes [
        | inl set_ ↦ rw set_ refl
        | inr none_ ↦ let nothing : n ≡ 0 = omega (arith, none_) in rw nothing refl
      ] in
    let out : formatted num pad flags (or_zero ds)
        ≡ replicate n zero_char ++ backwards (or_zero ds) [] =
      rw (low, plus, space, padded) refl in
    (
      formatted num pad flags (or_zero ds),
      print_int_runs num 10 pad flags ds (ap (digits 64 (flag_set flags 4) 10) whole ∙ runs),
      ap (λ s. get_dec (s ++ rest)) out ∙ read ∙ ap (λ x. (x, rest)) (same' ∙ same),
    )
