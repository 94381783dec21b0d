-- ===== src/Proc/Exec/Copy.antt =====
-- The loop that copies one table of arguments into the block.
use lambda_os.Prelude.{
  ℕ, suc, ◌+◌, ◌*◌, ◌^◌, ◌<◌, ◌≤◌, ◌≡◌, ◌⊎◌, inl, inr, refl, ap, ◌∙◌, some, List, [], ◌∷◌, length,
  All, arith,
}
use lambda_os.Std.Memory.{Memory, CString, Apart, word, put_word}
use lambda_os.Std.Memory.Same.{CString-moved, word-Same, word-put_word, put_word-outside}
use lambda_os.Std.Bytes.{memcpy}
use lambda_os.Std.Bytes.Copy.{memcpy-at, memcpy-outside}
use lambda_os.Std.Text.{strlen}
use lambda_os.Std.Text.Length.{strlen_lem}
use lambda_os.Proc.Exec.{copy_args}
use lambda_os.Proc.Exec.Table.{Vector, bytes_of, Row, Row-same}

-- The table at `p` and its strings do not meet the block of `n` bytes at `lo`.
abbrev pub Away : Memory → (lo n p : ℕ) → List (List ℕ) → Type 0
Away m lo n p [] = Apart lo n p 4
Away m lo n p (s ∷ ss) =
    Apart lo n p 4 × Apart lo n (word m p) (length s + 1) × Away m lo n (p + 4) ss

-- Only the block has changed.
abbrev pub Kept : (lo n : ℕ) → Memory → Memory → Type 0
Kept lo n m m' = (q : ℕ) → (q < lo) ⊎ (lo + n ≤ q) → m' q ≡ m q

pub Apart-outside : (lo n p k i : ℕ) → Apart lo n p k → i < k → (p + i < lo) ⊎ (lo + n ≤ p + i)
Apart-outside lo n p k i (inl above) lt = inr (omega (arith, above))
Apart-outside lo n p k i (inr below) lt = inl (omega (arith, below, lt))

pub narrow :
    (lo n p k q : ℕ) → lo ≤ p → p + k ≤ lo + n → (q < lo) ⊎ (lo + n ≤ q) → (q < p) ⊎ (p + k ≤ q)
narrow lo n p k q low high (inl below) = inl (omega (arith, below, low))
narrow lo n p k q low high (inr above) = inr (omega (arith, above, high))

-- Outside the pointers and the strings that are written.
abbrev pub Clear : (p k to n q : ℕ) → Type 0
Clear p k to n q = ((q < p) ⊎ (p + k ≤ q)) × ((q < to) ⊎ (to + n ≤ q))

-- What the loop leaves for these arguments.
pub record Filled (m m' : Memory) (p to : ℕ) (ss : List (List ℕ)) : Type 0 where
  pub row : Row m' p to ss
  pub others : (q : ℕ) → Clear p (4 * length ss) to (bytes_of ss) q → m' q ≡ m q

module _ (sfuel args table buffer size : ℕ) (m0 : Memory) (top : buffer + size < 2 ^ 32) where
  -- One argument.
  copy_one :
      (i off : ℕ) (m : Memory) (s : List ℕ)
      → Kept buffer size m0 m
      → CString m0 (word m0 (args + 4 * i)) s
      → Apart buffer size (args + 4 * i) 4
      → Apart buffer size (word m0 (args + 4 * i)) (length s + 1)
      → length s < sfuel
      → buffer ≤ table + 4 * i
      → table + 4 * (i + 1) ≤ buffer + off
      → off + (length s + 1) ≤ size
      → (arg : ℕ) × (word (put_word m (table + 4 * i) (buffer + off)) (args + 4 * i) ≡ arg)
        × (strlen sfuel (put_word m (table + 4 * i) (buffer + off)) arg ≡ some (length s))
        × Filled m
            (memcpy (put_word m (table + 4 * i) (buffer + off)) (buffer + off) arg (length s + 1))
            (table + 4 * i)
            (buffer + off)
            (s ∷ [])
  copy_one i off m s kept string table_away string_away short low in_table in_block =
      let arg = word m0 (args + 4 * i) in
      let m1 = put_word m (table + 4 * i) (buffer + off) in
      let m2 = memcpy m1 (buffer + off) arg (length s + 1) in
      let kept1 : Kept buffer size m0 m1 = λ q out.
        put_word-outside m (table + 4 * i) (buffer + off) q
          (narrow buffer size (table + 4 * i) 4 q low (omega (arith, in_table, in_block)) out)
        ∙ kept q out in
      let at = λ (j : ℕ) (lt : j < 4).
        kept1 (args + 4 * i + j) (Apart-outside buffer size (args + 4 * i) 4 j table_away lt) in
      let same = word-Same m0 m1 (args + 4 * i) at in
      let string1 =
        CString-moved m0 m1 arg arg s
          (λ j le.
            kept1 (arg + j)
              (Apart-outside buffer size arg (length s + 1) j string_away (omega (arith, le))))
          string in
      let clear : (buffer + off ≤ arg) ⊎ (arg + (length s + 1) ≤ buffer + off) = elim string_away [
        | inl above ↦ inl (omega (arith, above, in_block))
        | inr below ↦ inr (omega (arith, below))
      ] in
      let pointer = word-put_word m (table + 4 * i) (buffer + off) (omega (arith, top, in_block)) in
      let still = word-Same m1 m2 (table + 4 * i) (λ j lt.
        memcpy-outside m1 (buffer + off) arg (length s + 1) (table + 4 * i + j)
          (inl (omega (arith, lt, in_table)))) in
      let moved =
        CString-moved m1 m2 arg (buffer + off) s
          (λ j le. memcpy-at m1 (buffer + off) arg (length s + 1) j clear (omega (arith, le)))
          string1 in
      (
        arg,
        same,
        strlen_lem s sfuel m1 arg string1 short,
        record {
          row = (still ∙ pointer, moved, tt);
          others = λ q out.
              memcpy-outside m1 (buffer + off) arg (length s + 1) q (
                narrow (buffer + off) (length s + 1 + 0) (buffer + off) (length s + 1) q
                  (omega arith) (omega arith) out.1)
              ∙ put_word-outside m (table + 4 * i) (buffer + off) q
                  (narrow (table + 4 * i) 4 (table + 4 * i) 4 q (omega arith) (omega arith) out.0);
        },
      )

  -- What one argument and the others after it leave.
  Filled-both :
      (m m2 m' : Memory) (i off : ℕ) (s : List ℕ) (ss : List (List ℕ))
      → table + 4 * (i + 1 + length ss) ≤ buffer + off
      → Filled m m2 (table + 4 * i) (buffer + off) (s ∷ [])
      → Filled m2 m' (table + 4 * (i + 1)) (buffer + (off + length s + 1)) ss
      → Filled m m' (table + 4 * i) (buffer + off) (s ∷ ss)
  Filled-both m m2 m' i off s ss in_table one rest =
      let p : table + 4 * (i + 1) ≡ table + 4 * i + 4 = omega arith in
      let t : buffer + (off + length s + 1) ≡ buffer + off + length s + 1 = omega arith in
      let first =
        Row-same m2 m' (table + 4 * i) (buffer + off) (s ∷ [])
          (λ q low high.
            rest.others q (inl (omega (arith, high)), inl (omega (arith, high, in_table))))
          (λ q low high.
            rest.others q (inr (omega (arith, low, in_table)), inl (omega (arith, high))))
          one.row in
      record {
        row = (first.0, first.1, rw (← p, ← t) rest.row);
        others = λ q out.
            rest.others q (
              narrow (table + 4 * i) (4 * suc (length ss)) (table + 4 * (i + 1)) (4 * length ss) q
                  (omega arith) (omega arith) out.0,
              narrow (buffer + off) (length s + 1 + bytes_of ss) (buffer + (off + length s + 1))
                  (bytes_of ss) q (omega arith) (omega arith) out.1,
            )
            ∙ one.others q (
              narrow (table + 4 * i) (4 * suc (length ss)) (table + 4 * i) (4 * 1) q (omega arith)
                  (omega arith) out.0,
              narrow (buffer + off) (length s + 1 + bytes_of ss) (buffer + off) (length s + 1 + 0) q
                  (omega arith) (omega arith) out.1,
            );
      }

  copy_args_next :
      (n i off : ℕ) (m : Memory) (arg len : ℕ)
      → word (put_word m (table + 4 * i) (buffer + off)) (args + 4 * i) ≡ arg
      → strlen sfuel (put_word m (table + 4 * i) (buffer + off)) arg ≡ some len
      → copy_args sfuel args table buffer (suc n) i off m
        ≡ copy_args sfuel args table buffer n
            (i + 1)
            (off + len + 1)
            (memcpy (put_word m (table + 4 * i) (buffer + off)) (buffer + off) arg (len + 1))
  unfolding copy_args
  copy_args_next n i off m arg len pointed measured =
      let here = ap (strlen sfuel (put_word m (table + 4 * i) (buffer + off))) pointed ∙ measured in
      rw (← pointed) (rw (here, copy_args) refl)

  -- The loop copies the arguments.
  pub copy_args_lem :
      (ss : List (List ℕ)) (i off : ℕ) (m : Memory)
      → Kept buffer size m0 m
      → Vector m0 (args + 4 * i) ss
      → Away m0 buffer size (args + 4 * i) ss
      → All (λ s. length s < sfuel) ss
      → buffer ≤ table + 4 * i
      → table + 4 * (i + length ss) ≤ buffer + off
      → off + bytes_of ss ≤ size
      → (m' : Memory) × (copy_args sfuel args table buffer (length ss) i off m
          ≡ some (m', off + bytes_of ss))
        × Filled m m' (table + 4 * i) (buffer + off) ss
  unfolding copy_args
  copy_args_lem [] i off m kept vector away short low in_table in_block =
      let here : off + 0 ≡ off = omega arith in
      (m, rw here refl, record { row = tt; others = λ q out. refl })
  copy_args_lem (s ∷ ss) i off m kept vector away short low in_table in_block =
      let (arg, pointed, len, one) =
        copy_one i off m s kept vector.1 away.0 away.1 short.0 low (omega (arith, in_table))
          (omega (arith, in_block)) in
      let m2 =
        memcpy (put_word m (table + 4 * i) (buffer + off)) (buffer + off) arg (length s + 1) in
      let next : args + 4 * i + 4 ≡ args + 4 * (i + 1) = omega arith in
      let kept2 : Kept buffer size m0 m2 = λ q out.
        one.others q (
          narrow buffer size (table + 4 * i) (4 * 1) q low (omega (arith, in_table, in_block)) out,
          narrow buffer size (buffer + off) (length s + 1 + 0) q (omega arith)
              (omega (arith, in_block)) out,
        )
        ∙ kept q out in
      let (m', runs, rest) =
        copy_args_lem ss (i + 1) (off + length s + 1) m2 kept2 (rw (← next) vector.2)
          (rw (← next) away.2) short.1 (omega (arith, low)) (omega (arith, in_table))
          (omega (arith, in_block)) in
      let total : off + length s + 1 + bytes_of ss ≡ off + (length s + 1 + bytes_of ss) =
        omega arith in
      (
        m',
        copy_args_next (length ss) i off m arg (length s) pointed len
            ∙ runs
            ∙ ap (λ o. some (m', o)) total,
        Filled-both m m2 m' i off s ss (omega (arith, in_table)) one rest,
      )
