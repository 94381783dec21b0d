-- ===== src/Io/Number/Room.antt =====
-- How much room the characters of a number take.
use lambda_os.Prelude.{
  ℕ, zero, suc, ◌+◌, ◌-◌, ◌^◌, ◌<◌, ◌≤◌, ◌≡◌, ◌⊎◌, refl, Bool, inl, inr, Bool-cases, some, List, [],
  ◌∷◌, ◌++◌, leb, replicate, length, length-append, if◌then◌else◌, arith,
}
use lambda_os.Io.Number.{
  flag_set, digits, or_zero, backwards, sign, is_neg, size_of, formatted, print_int,
}
use lambda_os.Io.Number.Digits.{digits_few, print_int_runs}

length-backwards : (ds s : List ℕ) → length (backwards ds s) ≡ length ds + length s
length-backwards [] s = omega arith
length-backwards (d ∷ ds) s = omega (arith, length-backwards ds (d ∷ s))

length-replicate {ℓ} : {A : Type ℓ} (n : ℕ) (x : A) → length (replicate n x) ≡ n
length-replicate zero x = refl
length-replicate (suc n) x = omega (arith, length-replicate n x)

length-sign : (neg : Bool) (flags : ℕ) → length (sign neg flags) ≤ 1
length-sign neg flags = ground arith

-- A sign, padding and digits.
length_parts :
    (s : List ℕ) (n c : ℕ) (ans : List ℕ)
    → length s ≤ 1
    → length (s ++ replicate n c ++ backwards ans []) ≤ 1 + n + length ans
length_parts s n c ans h = omega (
  arith,
  length-append (s ++ replicate n c) (backwards ans []),
  length-append s (replicate n c),
  length-replicate n c,
  length-backwards ans [],
)

length-formatted :
    (num pad flags : ℕ) (ans : List ℕ)
    → length (formatted num pad flags ans) ≤ 1 + (pad - length ans) + length ans
length-formatted num pad flags ans =
    length_parts (sign (is_neg num flags) flags) (pad - length ans)
      (if flag_set flags 1 then 48 else 32) ans (length-sign (is_neg num flags) flags)

length-or_zero : (k : ℕ) (ds : List ℕ) → length ds ≤ suc k → length (or_zero ds) ≤ suc k
length-or_zero k [] few = omega arith
length-or_zero k (d ∷ ds) few = few

-- For a number below 2 ^ 64 and a base of at least 8 _print_int returns, has at most 22 digits in
-- its buffer, and puts out at most one character more than the padding, or at most 23.
pub print_int_fits :
    (num base pad flags : ℕ)
    → num < 2 ^ 64
    → 8 ≤ base
    → (ds : List ℕ) × (digits 64 (flag_set flags 4) base (size_of num flags) ≡ some ds)
      × (length (or_zero ds) ≤ 22)
      × (out : List ℕ) × (print_int num base pad flags ≡ some (length out, out))
      × ((length out ≤ pad + 1) ⊎ (length out ≤ 23))
print_int_fits num base pad flags small b =
    let word : size_of num flags < 8 ^ 22 = elim (Bool-cases (is_neg num flags)) [
      | inl minus ↦ rw minus (omega arith)
      | inr plain ↦ rw plain (omega (arith, small))
    ] in
    let (ds, runs, few) =
      digits_few 22 64 (flag_set flags 4) base (size_of num flags) b word (omega arith) in
    let short = length-or_zero 21 ds few in
    let total = length-formatted num pad flags (or_zero ds) in
    (
      ds,
      runs,
      short,
      formatted num pad flags (or_zero ds),
      print_int_runs num base pad flags ds runs,
      elim (Bool-cases (leb (length (or_zero ds)) pad)) [
        | inl padded ↦ inl (ground (arith, padded, total))
        | inr long ↦ inr (ground (arith, long, short, total))
      ],
    )
