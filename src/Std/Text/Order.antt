-- ===== src/Std/Text/Order.antt =====
-- What strcmp and strncmp return.
use lambda_os.Prelude.{
  ℕ, zero, suc, ◌+◌, ◌-◌, ◌^◌, ◌<◌, ◌≡◌, ◌↔◌, refl, ap₂, List, [], ◌∷◌, some, inl, inr, Bool-cases,
  ◌==◌, if◌then◌else◌, arith, length, take, All,
}
use lambda_os.Prelude.Word.{sub32}
use lambda_os.Std.Memory.{Memory, CString}
use lambda_os.Std.Text.{strcmp, strncmp}

-- The difference of two strings: of the first characters that differ, where a string ends in 0.
abbrev pub difference : List ℕ → List ℕ → ℕ
difference [] [] = 0
difference [] (y ∷ t) = sub32 0 y
difference (x ∷ s) [] = sub32 x 0
difference (x ∷ s) (y ∷ t) = if x == y then difference s t else sub32 x y

-- A character that is not the end of a string.
abbrev pub IsChar : ℕ → Type 0
IsChar x = (0 < x) × (x < 2 ^ 8)

pub difference_iff : (s t : List ℕ) → All IsChar s → All IsChar t → (difference s t ≡ 0) ↔ (s ≡ t)
difference_iff [] [] a b = ((λ e. refl), λ e. refl)
difference_iff [] (y ∷ t) a b = ((λ e. absurd (omega arith)), λ e. cc)
difference_iff (x ∷ s) [] a b = ((λ e. absurd (omega arith)), λ e. cc)
difference_iff (x ∷ s) (y ∷ t) a b =
    let ih = difference_iff s t a.1 b.1 in
    elim (Bool-cases (x == y)) [
      | inl same ↦
          let x≡y : x ≡ y = ground arith in
          ((λ e. ap₂ ◌∷◌ x≡y (ih.0 (ground (arith, same)))), λ e. rw same (ih.1 (cc)))
      | inr differ ↦
          ((λ e. absurd (ground (arith, differ, a.0, b.0))), λ e. absurd (ground (arith, differ)))
    ]

pub strcmp-difference :
    (s t : List ℕ) (fuel : ℕ) (m : Memory) (p q : ℕ)
    → CString m p s
    → CString m q t
    → length s < fuel
    → strcmp fuel m p q ≡ some (difference s t)
unfolding strcmp
strcmp-difference s t zero m p q c d h = absurd (omega arith)
strcmp-difference [] [] (suc f) m p q c d h = ground arith
strcmp-difference [] (y ∷ t) (suc f) m p q c d h = ground (arith, d.0)
strcmp-difference (x ∷ s) [] (suc f) m p q c d h = ground (arith, c.0, c.1)
strcmp-difference (x ∷ s) (y ∷ t) (suc f) m p q c d h =
    ground (arith, c.0, c.1, d.0, strcmp-difference s t f m (p + 1) (q + 1) c.2 d.2 (omega arith))

-- On two strings of characters, with fuel above the length of the first, strcmp returns, and its
-- result is 0 exactly when the strings are equal.
pub strcmp_iff :
    (s t : List ℕ) (fuel : ℕ) (m : Memory) (p q : ℕ)
    → CString m p s
    → CString m q t
    → All IsChar s
    → All IsChar t
    → length s < fuel
    → (r : ℕ) × (strcmp fuel m p q ≡ some r) × ((r ≡ 0) ↔ (s ≡ t))
strcmp_iff s t fuel m p q c d a b h =
    (difference s t, strcmp-difference s t fuel m p q c d h, difference_iff s t a b)

-- On two strings and a number above 0 in 32 bits, with fuel above the length of the first, strncmp
-- returns the difference of the first characters that differ in the two strings cut off at that
-- number.
pub strncmp-difference :
    (s t : List ℕ) (fuel : ℕ) (m : Memory) (p q n : ℕ)
    → CString m p s
    → CString m q t
    → 0 < n
    → n < 2 ^ 32
    → length s < fuel
    → strncmp fuel m p q n ≡ some (difference (take n s) (take n t))
unfolding strncmp
strncmp-difference s t zero m p q n c d pos word h = absurd (omega arith)
strncmp-difference s t (suc f) m p q zero c d pos word h = elim pos [ ]
strncmp-difference [] [] (suc f) m p q (suc n) c d pos word h = ground arith
strncmp-difference [] (y ∷ t) (suc f) m p q (suc n) c d pos word h = ground (arith, d.0)
strncmp-difference (x ∷ s) [] (suc f) m p q (suc n) c d pos word h = ground (arith, c.0, c.1)
strncmp-difference (x ∷ s) (y ∷ t) (suc f) m p q (suc zero) c d pos word h =
    ground (arith, c.0, c.1, d.0)
strncmp-difference (x ∷ s) (y ∷ t) (suc f) m p q (suc (suc n)) c d pos word h =
    let less : sub32 (suc (suc n)) 1 ≡ suc n = omega arith in
    ground (
      arith,
      c.0,
      c.1,
      d.0,
      less,
      strncmp-difference s t f m (p + 1) (q + 1) (suc n) c.2 d.2 (omega arith) (omega arith)
          (omega arith),
    )

strncmp_long :
    (s t : List ℕ) (fuel : ℕ) (m : Memory) (p q n : ℕ)
    → CString m p s
    → CString m q t
    → length s < n
    → n < 2 ^ 32
    → length s < fuel
    → strncmp fuel m p q n ≡ strcmp fuel m p q
unfolding strncmp strcmp
strncmp_long s t zero m p q n c d long word h = absurd (omega arith)
strncmp_long [] t (suc f) m p q n c d long word h = ground (arith, c)
strncmp_long (x ∷ s) [] (suc f) m p q n c d long word h = ground (arith, c.0, c.1, d)
strncmp_long (x ∷ s) (y ∷ t) (suc f) m p q n c d long word h =
    let less : sub32 n 1 ≡ n - 1 = omega arith in
    ground (
      arith,
      c.0,
      c.1,
      d.0,
      less,
      strncmp_long s t f m (p + 1) (q + 1) (n - 1) c.2 d.2 (omega arith) (omega arith)
          (omega arith),
    )

-- On two strings, the first shorter than 2 ^ 32 - 1 and than the fuel, strncmp with the number 0
-- returns what strcmp returns.
pub strncmp_zero :
    (s t : List ℕ) (fuel : ℕ) (m : Memory) (p q : ℕ)
    → CString m p s
    → CString m q t
    → length s < 2 ^ 32 - 1
    → length s < fuel
    → strncmp fuel m p q 0 ≡ strcmp fuel m p q
unfolding strncmp strcmp
strncmp_zero s t zero m p q c d small h = absurd (omega arith)
strncmp_zero [] t (suc f) m p q c d small h = ground (arith, c)
strncmp_zero (x ∷ s) [] (suc f) m p q c d small h = ground (arith, c.0, c.1, d)
strncmp_zero (x ∷ s) (y ∷ t) (suc f) m p q c d small h = ground (
  arith,
  c.0,
  c.1,
  d.0,
  strncmp_long s t f m (p + 1) (q + 1) (2 ^ 32 - 1) c.2 d.2 (omega arith) (omega arith)
      (omega arith),
)
