-- ===== src/Std/Memory.antt =====
-- Memory as C sees it: a byte at each address. A pointer is an address, and a string is the bytes
-- from a pointer up to the first 0.
pub mod Same
use lambda_os.Prelude.{
  ℕ, zero, suc, ◌+◌, ◌*◌, ◌/◌, ◌%◌, ◌^◌, ◌≤◌, ◌≡◌, ◌≢◌, ◌⊎◌, List, [], ◌∷◌, ◌==◌, if◌then◌else◌,
}

abbrev pub Memory : Type 0
Memory = ℕ → ℕ

-- `*p = v`
abbrev pub store : Memory → ℕ → ℕ → Memory
store m p v q = if q == p then v else m q

-- A `uint16_t` and a `uint32_t` in memory.
abbrev pub half : Memory → ℕ → ℕ
half m p = m p + m (p + 1) * 2 ^ 8

abbrev pub word : Memory → ℕ → ℕ
word m p = m p + m (p + 1) * 2 ^ 8 + m (p + 2) * 2 ^ 16 + m (p + 3) * 2 ^ 24

-- A `uint32_t` is written.
abbrev pub put_word : Memory → ℕ → ℕ → Memory
put_word m p w =
    store
      (store (store (store m p (w % 2 ^ 8)) (p + 1) (w / 2 ^ 8 % 2 ^ 8)) (p + 2)
        (w / 2 ^ 16 % 2 ^ 8))
      (p + 3) (w / 2 ^ 24 % 2 ^ 8)

-- The bytes from `p` on are those of the list.
abbrev pub Holds : Memory → ℕ → List ℕ → Type 0
Holds m p [] = Unit
Holds m p (x ∷ xs) = (m p ≡ x) × Holds m (p + 1) xs

-- The string at `p`: its characters, none of them 0, and a 0 behind them.
abbrev pub CString : Memory → ℕ → List ℕ → Type 0
CString m p [] = m p ≡ 0
CString m p (x ∷ s) = (m p ≡ x) × (x ≢ 0) × CString m (p + 1) s

-- The `n` bytes from `p` on.
abbrev pub bytes : Memory → ℕ → ℕ → List ℕ
bytes m p zero = []
bytes m p (suc n) = m p ∷ bytes m (p + 1) n

-- Two stretches of memory do not meet.
abbrev pub Apart : ℕ → ℕ → ℕ → ℕ → Type 0
Apart p n q k = (p + n ≤ q) ⊎ (q + k ≤ p)

-- The bytes of the list, and 0 behind them.
abbrev pub memory_of : List ℕ → Memory
memory_of [] p = 0
memory_of (x ∷ xs) zero = x
memory_of (x ∷ xs) (suc p) = memory_of xs p
