-- ===== src/Io/Number/Behind.antt =====
-- Where the format goes on behind a number.
use lambda_os.Prelude.{
  ℕ, ◌+◌, ◌-◌, ◌*◌, ◌%◌, ◌^◌, ◌≤◌, ◌≡◌, ◌≢◌, inl, inr, true, ◌&&◌, List, [], ◌∷◌, leb, length, All,
  Bool-cases, arith,
}
use lambda_os.Io.Number.{get_dec_loop, get_dec}

-- No precision in the format.
abbrev pub NoDot : List ℕ → Type 0
NoDot s = All (λ c. c ≢ 46) s

pub get_dec_loop_behind :
    (n : ℕ) (s : List ℕ)
    → (length (get_dec_loop n s).1 ≤ length s) × (NoDot s → NoDot (get_dec_loop n s).1)
unfolding get_dec_loop
get_dec_loop_behind n [] = (omega arith, λ h. h)
get_dec_loop_behind n (c ∷ s) = elim (Bool-cases (leb 48 c && leb c 57)) [
  | inl digit ↦
      let later = get_dec_loop_behind ((n * 10 + (c - 48)) % 2 ^ 32) s in
      rw digit (omega (arith, later.0), λ h. later.1 h.1)
  | inr other ↦ rw other (omega arith, λ h. h)
]

pub get_dec_behind :
    (c : ℕ) (s : List ℕ)
    → leb 49 c && leb c 57 ≡ true
    → (length (get_dec (c ∷ s)).1 ≤ length s) × (NoDot s → NoDot (get_dec (c ∷ s)).1)
unfolding get_dec get_dec_loop
get_dec_behind c s digit =
    let first : (leb 48 c && leb c 57) ≡ true = ground (arith, digit) in
    rw first (get_dec_loop_behind ((0 * 10 + (c - 48)) % 2 ^ 32) s)

pub get_dec_rest :
    (s : List ℕ) → (length (get_dec s).1 ≤ length s) × (NoDot s → NoDot (get_dec s).1)
unfolding get_dec
get_dec_rest s = get_dec_loop_behind 0 s
