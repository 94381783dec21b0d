-- ===== src/Io/Number/Numeral.antt =====
-- The numerals that _print_int puts out for numbers without a sign.
use mathlib.Core.Option.{some-injective}
use native.Mathlib.Nat.{mod-lt, div-add-mod, mul_comm}
use lambda_os.Prelude.{
  ℕ, zero, suc, ◌+◌, ◌-◌, ◌*◌, ◌/◌, ◌%◌, ◌^◌, ◌<◌, ◌≤◌, ◌≡◌, ◌⊎◌, inl, inr, refl, sym, ap, ◌∙◌,
  false, some, List, [], ◌∷◌, ◌++◌, ◌==◌, get_or, length, Bool-cases, Option-cases, arith,
}
use lambda_os.Io.Number.{nums, digits, or_zero, backwards, formatted, print_int}
use lambda_os.Io.Number.Digits.{digits_few, backwards-append, print_int_runs}

-- The character of a digit: '0' to '9' are from 48 on, 'a' to 'f' from 97 on.
abbrev IsDigitOf : ℕ → ℕ → Type 0
IsDigitOf c d = ((d < 10) × (c ≡ 48 + d)) ⊎ ((10 ≤ d) × (d < 16) × (c ≡ 87 + d))

-- The digits of a number in a base, the first one not 0 unless it is the only one.
pub data Numeral (base : ℕ) : ℕ → List ℕ → Type 0 where
  one_digit : (n c : ℕ) → n < base → IsDigitOf c n → Numeral base n (c ∷ [])
  and_digit :
      (n lead d c : ℕ) (cs : List ℕ)
      → n ≡ lead * base + d
      → 0 < lead
      → d < base
      → IsDigitOf c d
      → Numeral base lead cs
      → Numeral base n (cs ++ c ∷ [])

nums-IsDigitOf : (d : ℕ) → d < 16 → IsDigitOf (get_or (nums false) d 48) d
nums-IsDigitOf zero h = inl (omega arith, refl)
nums-IsDigitOf (suc zero) h = inl (omega arith, refl)
nums-IsDigitOf (suc (suc zero)) h = inl (omega arith, refl)
nums-IsDigitOf (suc (suc (suc zero))) h = inl (omega arith, refl)
nums-IsDigitOf (suc (suc (suc (suc zero)))) h = inl (omega arith, refl)
nums-IsDigitOf (suc (suc (suc (suc (suc zero))))) h = inl (omega arith, refl)
nums-IsDigitOf (suc (suc (suc (suc (suc (suc zero)))))) h = inl (omega arith, refl)
nums-IsDigitOf (suc (suc (suc (suc (suc (suc (suc zero))))))) h = inl (omega arith, refl)
nums-IsDigitOf (suc (suc (suc (suc (suc (suc (suc (suc zero)))))))) h = inl (omega arith, refl)
nums-IsDigitOf (suc (suc (suc (suc (suc (suc (suc (suc (suc zero))))))))) h =
    inl (omega arith, refl)
nums-IsDigitOf (suc (suc (suc (suc (suc (suc (suc (suc (suc (suc zero)))))))))) h =
    inr (omega arith, omega arith, refl)
nums-IsDigitOf (suc (suc (suc (suc (suc (suc (suc (suc (suc (suc (suc zero))))))))))) h =
    inr (omega arith, omega arith, refl)
nums-IsDigitOf (suc (suc (suc (suc (suc (suc (suc (suc (suc (suc (suc (suc zero)))))))))))) h =
    inr (omega arith, omega arith, refl)
nums-IsDigitOf (suc (suc (suc (suc (suc (suc (suc (suc (suc (suc (suc (suc (suc zero)))))))))))))
      h =
    inr (omega arith, omega arith, refl)
nums-IsDigitOf
      (suc (suc (suc (suc (suc (suc (suc (suc (suc (suc (suc (suc (suc (suc zero)))))))))))))) h =
    inr (omega arith, omega arith, refl)
nums-IsDigitOf
      (suc (suc (suc (suc (suc (suc (suc (suc (suc (suc (suc (suc (suc (suc (suc zero)))))))))))))))
      h =
    inr (omega arith, omega arith, refl)
nums-IsDigitOf
      (suc
        (suc (suc (suc (suc (suc (suc (suc (suc (suc (suc (suc (suc (suc (suc (suc d))))))))))))))))
      h =
    absurd (omega arith)

digits_zero : (f base n : ℕ) → n ≡ 0 → digits f false base n ≡ some []
unfolding digits
digits_zero zero base n z = ground (arith, z)
digits_zero (suc f) base n z = ground (arith, z)

last_digit :
    (base n c : ℕ) (es : List ℕ)
    → n < base
    → c ≡ get_or (nums false) n 48
    → es ≡ []
    → base ≤ 16
    → Numeral base n (backwards (c ∷ es) [])
last_digit base n c es small same none_left few =
    rw (none_left, same)
      (one_digit n (get_or (nums false) n 48) small (nums-IsDigitOf n (omega arith)))

module _ (base : ℕ) (low : 8 ≤ base) (high : base ≤ 16) where
  mul-zero_left : {q : ℕ} → q ≡ 0 → q * base ≡ 0
  mul-zero_left z = rw z (omega arith)

  digits-Numeral :
      (f n : ℕ) (ds : List ℕ)
      → digits f false base n ≡ some ds
      → 0 < n
      → Numeral base n (backwards ds [])
  unfolding digits
  digits-Numeral zero n ds runs more = absurd (ground (arith, runs, more))
  digits-Numeral (suc f) n ds runs more =
      let some_left : (n == 0) ≡ false = ground (arith, more) in
      elim (Option-cases (digits f false base (n / base))) [
        | inl fails ↦ absurd (ground (arith, runs, some_left, fails))
        | inr (es, rest) ↦
            let c = get_or (nums false) (n % base) 48 in
            let same : ds ≡ c ∷ es = ground (arith, runs, some_left, rest) in
            let d : n % base < base = mod-lt n (omega (arith, low)) in
            let parts : n ≡ n / base * base + n % base =
              omega (arith, div-add-mod n base, mul_comm base (n / base)) in
            elim (Bool-cases (n / base == 0)) [
              | inl last ↦
                  (let none_left : n / base ≡ 0 = ground (arith, last) in
                    let small : n < base = omega (arith, parts, d, mul-zero_left none_left) in
                    rw same (
                      last_digit base n c es small
                        (ap (λ x. get_or (nums false) x 48)
                          (omega (arith, parts, mul-zero_left none_left)))
                        (some-injective _ _ (sym rest ∙ digits_zero f base (n / base) none_left))
                        high))
              | inr leads ↦
                  let later = digits-Numeral f (n / base) es rest (ground (arith, leads)) in
                  rw (same, sym (backwards-append es [] (c ∷ [])))
                    (and_digit n (n / base) (n % base) c (backwards es []) parts
                      (ground (arith, leads)) d (nums-IsDigitOf (n % base) (omega (arith, d)))
                      later)
            ]
      ]

  -- A number other than 0 has a digit.
  digits_nonzero :
      (f n : ℕ) (ds : List ℕ) → digits (suc f) false base n ≡ some ds → 0 < n → or_zero ds ≡ ds
  unfolding digits
  digits_nonzero f n [] runs more =
      let some_left : (n == 0) ≡ false = ground (arith, more) in
      elim (Option-cases (digits f false base (n / base))) [
        | inl fails ↦ absurd (ground (arith, runs, some_left, fails))
        | inr (es, rest) ↦ absurd (ground (arith, runs, some_left, rest))
      ]
  digits_nonzero f n (d ∷ ds) runs more = refl

  formatted_plain : (n : ℕ) (ds : List ℕ) → formatted n 0 1 ds ≡ backwards ds []
  formatted_plain n ds = let none_left : 0 - length ds ≡ 0 = omega arith in rw none_left refl

  -- A number below 2 ^ 32 that is printed without a sign and without padding is a numeral.
  pub print_int-Numeral :
      (n : ℕ)
      → n < 2 ^ 32
      → (cs : List ℕ) × (print_int n base 0 1 ≡ some (length cs, cs)) × Numeral base n cs
  print_int-Numeral n small =
      let (ds, runs, few) = digits_few 22 64 false base n low (omega arith) (omega arith) in
      let printed = print_int_runs n base 0 1 ds runs in
      elim (Bool-cases (n == 0)) [
        | inl none_left ↦ (
          48 ∷ [],
          printed
              ∙ ap
                  (λ es. some (length (formatted n 0 1 (or_zero es)), formatted n 0 1 (or_zero es)))
                  (some-injective _ _
                    (sym runs ∙ digits_zero 64 base n (ground (arith, none_left)))),
          let z : n ≡ 0 = ground (arith, none_left) in
              rw z (one_digit 0 48 (omega (arith, low)) (inl (omega arith, refl))),
        )
        | inr more ↦ (
          backwards ds [],
          printed
              ∙ ap (λ cs. some (length cs, cs))
                  (formatted_plain n (or_zero ds)
                    ∙ ap (λ es. backwards es [])
                        (digits_nonzero 63 n ds runs (ground (arith, more)))),
          digits-Numeral 64 n ds runs (ground (arith, more)),
        )
      ]
