-- ===== src/Std/Bytes/Compare.antt =====
-- The result of memcmp.
use lambda_os.Prelude.{
  ℕ, zero, suc, ◌+◌, ◌^◌, ◌<◌, ◌≡◌, ◌≢◌, ◌↔◌, refl, inl, inr, Bool-cases, ◌==◌, List, [], ◌∷◌, All,
  arith,
}
use lambda_os.Prelude.Word.{sub32}
use lambda_os.Std.Memory.{Memory, memory_of}
use lambda_os.Std.Bytes.{memcmp}

-- Each address holds a byte.
abbrev pub IsBytes : Memory → Type 0
IsBytes m = (p : ℕ) → m p < 2 ^ 8

pub memory_of-IsBytes : (xs : List ℕ) → All (λ x. x < 2 ^ 8) xs → IsBytes (memory_of xs)
memory_of-IsBytes [] a p = omega arith
memory_of-IsBytes (x ∷ xs) a zero = a.0
memory_of-IsBytes (x ∷ xs) a (suc p) = memory_of-IsBytes xs a.1 p

-- The `n` bytes at two pointers are the same.
abbrev pub SameBytes : Memory → ℕ → ℕ → ℕ → Type 0
SameBytes m p q zero = Unit
SameBytes m p q (suc n) = (m (p + n) ≡ m (q + n)) × SameBytes m p q n

-- If each address holds a byte, memcmp returns 0 exactly when the two blocks are the same.
pub memcmp_iff :
    (m : Memory) (s1 s2 n : ℕ) → IsBytes m → (memcmp m s1 s2 n ≡ 0) ↔ SameBytes m s1 s2 n
unfolding memcmp
memcmp_iff m s1 s2 zero b = ((λ e. tt), λ e. refl)
memcmp_iff m s1 s2 (suc n) b =
    let ih = memcmp_iff m s1 s2 n b in
    let l = b (s1 + n) in
    let r = b (s2 + n) in
    elim (Bool-cases (m (s1 + n) == m (s2 + n))) [
      | inl same ↦ ((λ e. (ground arith, ih.0 (ground (arith, same)))), λ e. rw same (ih.1 e.1))
      | inr differ ↦ ((λ e. ground (arith, differ)), λ e. ground (arith, differ))
    ]

-- If the blocks differ at an index and are the same at all later ones, memcmp returns the
-- difference of the bytes at that index, the last that differ.
pub memcmp_last :
    (m : Memory) (s1 s2 n k : ℕ)
    → k < n
    → m (s1 + k) ≢ m (s2 + k)
    → ((i : ℕ) → k < i → i < n → m (s1 + i) ≡ m (s2 + i))
    → memcmp m s1 s2 n ≡ sub32 (m (s1 + k)) (m (s2 + k))
unfolding memcmp
memcmp_last m s1 s2 zero k lt ne after = elim lt [ ]
memcmp_last m s1 s2 (suc n) k lt ne after = elim (Bool-cases (k == n)) [
  | inl here ↦ ground arith
  | inr below ↦
      let same = after n (ground arith) (omega arith) in
      ground
        (arith, same, memcmp_last m s1 s2 n k (ground arith) ne (λ i a c. after i a (omega arith)))
]
