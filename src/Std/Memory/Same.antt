-- ===== src/Std/Memory/Same.antt =====
-- Strings and words that are the same bytes in two memories, and words that are written.
use lambda_os.Prelude.{ℕ, ◌+◌, ◌^◌, ◌<◌, ◌≤◌, ◌≡◌, ◌⊎◌, sym, ap, ◌∙◌, List, [], ◌∷◌, length, arith}
use lambda_os.Std.Memory.{Memory, CString, half, word, put_word}

-- The string at two places, in two memories.
pub CString-moved :
    (m m' : Memory) (p q : ℕ) (s : List ℕ)
    → ((i : ℕ) → i ≤ length s → m' (q + i) ≡ m (p + i))
    → CString m p s
    → CString m' q s
CString-moved m m' p q [] same c =
    let here : (q + 0 ≡ q) × (p + 0 ≡ p) = omega arith in
    ap m' (sym here.0) ∙ same 0 (omega arith) ∙ ap m here.1 ∙ c
CString-moved m m' p q (x ∷ s) same c =
    let here : (q + 0 ≡ q) × (p + 0 ≡ p) = omega arith in
    let first : m' q ≡ m p = ap m' (sym here.0) ∙ same 0 (omega arith) ∙ ap m here.1 in
    let later = λ (i : ℕ) (le : i ≤ length s).
      let there : (q + 1 + i ≡ q + (i + 1)) × (p + (i + 1) ≡ p + 1 + i) = omega arith in
      ap m' there.0 ∙ same (i + 1) (omega arith) ∙ ap m there.1 in
    (first ∙ c.0, c.1, CString-moved m m' (p + 1) (q + 1) s later c.2)

-- The `n` bytes at a pointer are the same in two memories.
abbrev pub Same : Memory → Memory → ℕ → ℕ → Type 0
Same m m' p n = (i : ℕ) → i < n → m' (p + i) ≡ m (p + i)

pub word-Same : (m m' : Memory) (p : ℕ) → Same m m' p 4 → word m' p ≡ word m p
word-Same m m' p same =
    let here : p + 0 ≡ p = omega arith in
    let first : m' p ≡ m p = ap m' (sym here) ∙ same 0 (omega arith) ∙ ap m here in
    omega (arith, first, same 1 (omega arith), same 2 (omega arith), same 3 (omega arith))

pub half-Same : (m m' : Memory) (p : ℕ) → Same m m' p 2 → half m' p ≡ half m p
half-Same m m' p same =
    let here : p + 0 ≡ p = omega arith in
    let first : m' p ≡ m p = ap m' (sym here) ∙ same 0 (omega arith) ∙ ap m here in
    omega (arith, first, same 1 (omega arith))

pub word-put_word : (m : Memory) (p w : ℕ) → w < 2 ^ 32 → word (put_word m p w) p ≡ w
word-put_word m p w lt = ground (arith, lt)

pub put_word-outside : (m : Memory) (p w q : ℕ) → (q < p) ⊎ (p + 4 ≤ q) → put_word m p w q ≡ m q
put_word-outside m p w q out = ground (arith, out)
