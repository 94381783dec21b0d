-- ===== src/Std/Number/Value.antt =====
-- The number that strtoul reads.
use native.Mathlib.Omega.{arith}
use native.Mathlib.Nat.{mod-add-mod, add-mul-mod_self_right}
use mathlib.Core.Path.{subst}
use lambda_os.Prelude.{
  ℕ, zero, suc, ◌+◌, ◌*◌, ◌/◌, ◌%◌, ◌^◌, ◌<◌, ◌≤◌, ◌≡◌, ◌≢◌, ◌⊎◌, inl, inr, sym, ap, ◌∙◌, true,
  false, List, [], ◌∷◌, some, length, All,
}
use lambda_os.Std.Memory.{Memory, Holds}
use lambda_os.Std.Number.{
  is_space, conv_checkchar, conv_convertchar, skip_space, prefix, conv_loop, strtoul,
}

-- The number with the digits, behind a part with the value `val`.
abbrev pub value : ℕ → ℕ → List ℕ → ℕ
value base val [] = val
value base val (c ∷ s) = value base (val * base + conv_convertchar c) s

abbrev pub IsDigit : ℕ → ℕ → Type 0
IsDigit base c = (c ≢ 0) × (conv_checkchar c base ≡ true)

scale : (v r q base d : ℕ) → v ≡ r + q * 2 ^ 32 → v * base + d ≡ r * base + d + q * base * 2 ^ 32
scale v r q base d e = rw e (omega arith)

split_word :
    (val base d : ℕ) → val * base + d ≡ val % 2 ^ 32 * base + d + val / 2 ^ 32 * base * 2 ^ 32
split_word val base d = scale val (val % 2 ^ 32) (val / 2 ^ 32) base d (omega arith)

wrap_step :
    (val base d : ℕ) → (val % 2 ^ 32 * base % 2 ^ 32 + d) % 2 ^ 32 ≡ (val * base + d) % 2 ^ 32
wrap_step val base d =
    mod-add-mod (val % 2 ^ 32 * base) (2 ^ 32) d
    ∙ sym (
        ap (λ z. z % 2 ^ 32) (split_word val base d)
        ∙ add-mul-mod_self_right (val % 2 ^ 32 * base + d) (val / 2 ^ 32 * base) (2 ^ 32))

conv_loop_lem :
    (s : List ℕ) (fuel : ℕ) (m : Memory) (p base val : ℕ)
    → Holds m p s
    → All (IsDigit base) s
    → (m (p + length s) ≡ 0) ⊎ (conv_checkchar (m (p + length s)) base ≡ false)
    → length s < fuel
    → conv_loop fuel m p base (val % 2 ^ 32) ≡ some (value base val s % 2 ^ 32, p + length s)
unfolding conv_loop
conv_loop_lem s zero m p base val has digits stop f = absurd (omega arith)
conv_loop_lem [] (suc fuel) m p base val has digits stop f = elim stop [
  | inl e ↦ ground (arith, e)
  | inr e ↦ ground (arith, e)
]
conv_loop_lem (c ∷ s) (suc fuel) m p base val has digits stop f =
    let same : p + 1 + length s ≡ p + suc (length s) = omega arith in
    let stop' = subst (λ z. (m z ≡ 0) ⊎ (conv_checkchar (m z) base ≡ false)) (sym same) stop in
    let rest =
      conv_loop_lem s fuel m (p + 1) base (val * base + conv_convertchar c) has.1 digits.1 stop'
        (omega arith) in
    let step = wrap_step val base (conv_convertchar c) in
    ground (arith, has.0, digits.0, step, rest, same)

skip_space_lem :
    (s : List ℕ) (fuel : ℕ) (m : Memory) (p : ℕ)
    → Holds m p s
    → All (λ x. is_space x ≡ true) s
    → is_space (m (p + length s)) ≡ false
    → length s < fuel
    → skip_space fuel m p ≡ some (p + length s)
unfolding skip_space
skip_space_lem s zero m p has spaces stop f = absurd (omega arith)
skip_space_lem [] (suc fuel) m p has spaces stop f = ground (arith, stop)
skip_space_lem (c ∷ s) (suc fuel) m p has spaces stop f =
    let same : p + 1 + length s ≡ p + suc (length s) = omega arith in
    let stop' = subst (λ z. is_space (m z) ≡ false) (sym same) stop in
    ground (
      arith,
      has.0,
      spaces.0,
      same,
      skip_space_lem s fuel m (p + 1) has.1 spaces.1 stop' (omega arith),
    )

prefix_plain : (m : Memory) (p base : ℕ) → 0 < base → base ≢ 16 → prefix m p base ≡ (base, p)
unfolding prefix
prefix_plain m p base pos ne = ground (arith, pos, ne)

digit_not_space : (c base : ℕ) → conv_checkchar c base ≡ true → is_space c ≡ false
digit_not_space c base d = ground (arith, d)

-- If a string begins with some spaces and then at least one digit of the base, the digits end
-- before the end of the string or at a character that is none, the base is from 1 to 35 and not
-- 16, and the fuel is above both lengths, strtoul returns the number with these digits modulo 2 ^
-- 32 and sets the end pointer behind them.
pub strtoul_lem :
    (sp : List ℕ) (c : ℕ) (s : List ℕ) (fuel : ℕ) (m : Memory) (p base : ℕ)
    → Holds m p sp
    → All (λ x. is_space x ≡ true) sp
    → Holds m (p + length sp) (c ∷ s)
    → All (IsDigit base) (c ∷ s)
    → (m (p + length sp + length (c ∷ s)) ≡ 0)
      ⊎ (conv_checkchar (m (p + length sp + length (c ∷ s))) base ≡ false)
    → 0 < base
    → base ≤ 35
    → base ≢ 16
    → length sp < fuel
    → length (c ∷ s) < fuel
    → strtoul fuel m p base
      ≡ some (value base 0 (c ∷ s) % 2 ^ 32, some (p + length sp + length (c ∷ s)))
unfolding strtoul
strtoul_lem sp c s fuel m p base spaces_at spaces digits_at digits stop pos small hex f g =
    let q = p + length sp in
    let first =
      subst (λ x. is_space x ≡ false) (sym digits_at.0) (digit_not_space c base digits.0.1) in
    let skipped = skip_space_lem sp fuel m p spaces_at spaces first f in
    let plain = prefix_plain m q base pos hex in
    let run = conv_loop_lem (c ∷ s) fuel m q base 0 digits_at digits stop g in
    ground (arith, skipped, plain, run, pos, small)
