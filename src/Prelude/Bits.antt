-- ===== src/Prelude/Bits.antt =====
-- Masks of low bits, for the `&` of two words.
use Prim.Native.Nat.{
  ℕ, zero, suc, ◌+◌, ◌-◌, ◌*◌, ◌/◌, ◌%◌, ◌^◌, ◌<◌, ◌≤◌, min, bit_and, digits, bit_and-bitwise,
}
use mathlib.Core.Path.{◌≡◌, refl, sym, ap, ◌∙◌}
use native.Mathlib.Omega.{arith}

-- The lowest `n` bits of two numbers, joined one by one.
abbrev joined : ℕ → ℕ → ℕ → ℕ
joined zero a b = 0
joined (suc n) a b = 2 * joined n (a / 2) (b / 2) + min (a % 2) (b % 2)

joined_zero : (n b : ℕ) → joined n 0 b ≡ 0
joined_zero zero b = refl
joined_zero (suc n) b = omega (arith, joined_zero n (b / 2))

digits-joined : (n a b : ℕ) → digits (λ b. zero) min n a b ≡ joined n a b
digits-joined zero a b = refl
digits-joined (suc n) zero b = sym (joined_zero (suc n) b)
digits-joined (suc n) (suc a) b = omega (arith, digits-joined n (suc a / 2) (b / 2))

-- More bits than a number has make no difference.
joined_enough : (n k a b : ℕ) → a ≤ n → a ≤ k → joined n a b ≡ joined k a b
joined_enough zero k a b p q =
    let none : a ≡ 0 = omega (arith, p) in rw none (sym (joined_zero k b))
joined_enough (suc n) zero a b p q =
    let none : a ≡ 0 = omega (arith, q) in rw none (joined_zero (suc n) b)
joined_enough (suc n) (suc k) a b p q =
    omega (arith, joined_enough n k (a / 2) (b / 2) (omega (arith, p)) (omega (arith, q)))

bit_and-joined : (n a b : ℕ) → a ≤ n → bit_and a b ≡ joined n a b
bit_and-joined n a b le =
    bit_and-bitwise a b ∙ digits-joined a a b ∙ joined_enough a n a b (omega arith) le

-- The lowest bit apart from the others.
bit_and_halves : (a b : ℕ) → bit_and a b ≡ 2 * bit_and (a / 2) (b / 2) + min (a % 2) (b % 2)
bit_and_halves a b = omega (
  arith,
  bit_and-joined (suc a) a b (omega arith),
  bit_and-joined a (a / 2) (b / 2) (omega arith),
)

-- The number 2 ^ k - 1, and a number shifted by `k` bits, and its lowest `k` bits.
abbrev pub ones : ℕ → ℕ
ones zero = 0
ones (suc k) = 2 * ones k + 1

abbrev up : ℕ → ℕ → ℕ
up zero a = a
up (suc k) a = 2 * up k a

abbrev high : ℕ → ℕ → ℕ
high zero a = a
high (suc k) a = high k (a / 2)

abbrev pub low : ℕ → ℕ → ℕ
low zero a = 0
low (suc k) a = 2 * low k (a / 2) + a % 2

joined_none : (n a : ℕ) → joined n a 0 ≡ 0
joined_none zero a = refl
joined_none (suc n) a = omega (arith, joined_none n (a / 2))

pub bit_and-ones : (k a : ℕ) → bit_and a (ones k) ≡ low k a
bit_and-ones zero a = bit_and-joined a a 0 (omega arith) ∙ joined_none a a
bit_and-ones (suc k) a =
    let half : (2 * ones k + 1) / 2 ≡ ones k = omega arith in
    let odd : (2 * ones k + 1) % 2 ≡ 1 = omega arith in
    bit_and_halves a (2 * ones k + 1) ∙ rw (half, odd) (omega (arith, bit_and-ones k (a / 2)))

bit_and-up : (k a b : ℕ) → bit_and a (up k b) ≡ up k (bit_and (high k a) b)
bit_and-up zero a b = refl
bit_and-up (suc k) a b =
    let half : 2 * up k b / 2 ≡ up k b = omega arith in
    let even : 2 * up k b % 2 ≡ 0 = omega arith in
    bit_and_halves a (2 * up k b) ∙ rw (half, even) (omega (arith, bit_and-up k (a / 2) b))

low_all : (k a : ℕ) → a ≤ ones k → low k a ≡ a
low_all zero a le = omega (arith, le)
low_all (suc k) a le = omega (arith, low_all k (a / 2) (omega (arith, le)))

pub low_few : (k a : ℕ) → low k a ≤ ones k
low_few zero a = omega arith
low_few (suc k) a = omega (arith, low_few k (a / 2))

up-high : (k a : ℕ) → up k (high k a) + low k a ≡ a
up-high zero a = omega arith
up-high (suc k) a = omega (arith, up-high k (a / 2))

low-up : (k a : ℕ) → low k (up k a) ≡ 0
low-up zero a = refl
low-up (suc k) a =
    let half : 2 * up k a / 2 ≡ up k a = omega arith in rw half (omega (arith, low-up k a))

-- `k` ones behind a number.
abbrev more : ℕ → ℕ → ℕ
more zero a = a
more (suc k) a = 2 * more k a + 1

up-ones : (k a : ℕ) → up k a + ones k ≡ more k a
up-ones zero a = omega arith
up-ones (suc k) a = omega (arith, up-ones k a)

high_few : (k n a : ℕ) → a ≤ more k (ones n) → high k a ≤ ones n
high_few zero n a le = le
high_few (suc k) n a le = high_few k n (a / 2) (omega (arith, le))

more-ones : (k n t : ℕ) → k + n ≡ t → more k (ones n) ≡ ones t
more-ones zero n t total = let same : n ≡ t = omega (arith, total) in ap ones same
more-ones (suc k) n zero total = absurd (omega (arith, total))
more-ones (suc k) n (suc t) total = omega (arith, more-ones k n t (omega (arith, total)))

-- A word without its lowest `k` bits.
pub bit_and_mask :
    (k x : ℕ)
    → k ≤ 32
    → x < 2 ^ 32
    → (bit_and x (2 ^ 32 - 1 - ones k) + low k x ≡ x)
      × (low k (bit_and x (2 ^ 32 - 1 - ones k)) ≡ 0)
bit_and_mask k x few small =
    let n = 32 - k in
    let all : more k (ones n) ≡ 2 ^ 32 - 1 = more-ones k n 32 (omega (arith, few)) in
    let mask : 2 ^ 32 - 1 - ones k ≡ up k (ones n) = omega (arith, all, up-ones k (ones n)) in
    let rest : bit_and (high k x) (ones n) ≡ high k x =
      bit_and-ones n (high k x)
      ∙ low_all n (high k x) (high_few k n x (omega (arith, all, small))) in
    let cut : bit_and x (2 ^ 32 - 1 - ones k) ≡ up k (high k x) =
      ap (bit_and x) mask ∙ bit_and-up k x (ones n) ∙ ap (up k) rest in
    rw cut (up-high k x, low-up k (high k x))

pub ones_mono : (k n : ℕ) → k ≤ n → ones k ≤ ones n
ones_mono zero n le = omega arith
ones_mono (suc k) zero le = absurd (omega (arith, le))
ones_mono (suc k) (suc n) le = omega (arith, ones_mono k n (omega (arith, le)))
