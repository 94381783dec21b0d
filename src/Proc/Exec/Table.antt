-- ===== src/Proc/Exec/Table.antt =====
-- Tables of strings in memory.
use lambda_os.Prelude.{
  ℕ, zero, suc, ◌+◌, ◌*◌, ◌<◌, ◌≤◌, ◌≡◌, ◌≢◌, refl, sym, ap, ◌∙◌, false, some, List, [], ◌∷◌, ◌==◌,
  length, All, arith,
}
use lambda_os.Std.Memory.{Memory, CString, word}
use lambda_os.Std.Text.Length.{strlen_lem}
use lambda_os.Std.Memory.Same.{CString-moved, word-Same}
use lambda_os.Proc.Exec.{measure_args}

-- The table at `p` has pointers to these strings, and a NULL pointer behind them.
abbrev pub Vector : Memory → ℕ → List (List ℕ) → Type 0
Vector m p [] = word m p ≡ 0
Vector m p (s ∷ ss) = (word m p ≢ 0) × CString m (word m p) s × Vector m (p + 4) ss

-- The bytes the strings take.
abbrev pub bytes_of : List (List ℕ) → ℕ
bytes_of [] = 0
bytes_of (s ∷ ss) = length s + 1 + bytes_of ss

-- The table at `p` has pointers to these strings, which stand one behind the other from `to` on.
abbrev pub Row : Memory → (p to : ℕ) → List (List ℕ) → Type 0
Row m p to [] = Unit
Row m p to (s ∷ ss) = (word m p ≡ to) × CString m to s × Row m (p + 4) (to + length s + 1) ss

pub Row-Vector :
    (m : Memory) (p to : ℕ) (ss : List (List ℕ))
    → 0 < to
    → Row m p to ss
    → word m (p + 4 * length ss) ≡ 0
    → Vector m p ss
Row-Vector m p to [] pos row end = let here : p + 4 * 0 ≡ p = omega arith in rw (← here) end
Row-Vector m p to (s ∷ ss) pos (at, string, later) end =
    let there : p + 4 * suc (length ss) ≡ p + 4 + 4 * length ss = omega arith in
    (
      (λ e. omega (arith, at, e, pos)),
      rw at string,
      Row-Vector m (p + 4) (to + length s + 1) ss (omega (arith, pos)) later
          (ap (word m) (sym there) ∙ end),
    )

-- The row is the same in a memory that is the same there.
pub Row-same :
    (m m' : Memory) (p to : ℕ) (ss : List (List ℕ))
    → ((q : ℕ) → p ≤ q → q < p + 4 * length ss → m' q ≡ m q)
    → ((q : ℕ) → to ≤ q → q < to + bytes_of ss → m' q ≡ m q)
    → Row m p to ss
    → Row m' p to ss
Row-same m m' p to [] table strings row = tt
Row-same m m' p to (s ∷ ss) table strings (at, string, later) = (
  word-Same m m' p (λ i lt. table (p + i) (omega arith) (omega (arith, lt))) ∙ at,
  CString-moved m m' to to s (λ i le. strings (to + i) (omega arith) (omega (arith, le))) string,
  Row-same m m' (p + 4) (to + length s + 1) ss
      (λ q low high. table q (omega (arith, low)) (omega (arith, high)))
      (λ q low high. strings q (omega (arith, low)) (omega (arith, high))) later,
)

-- The first loops count the strings and their bytes.
pub measure_args_lem :
    (fuel sfuel : ℕ) (m : Memory) (args i : ℕ) (ss : List (List ℕ))
    → Vector m (args + 4 * i) ss
    → length ss < fuel
    → All (λ s. length s < sfuel) ss
    → measure_args fuel sfuel m args i ≡ some (i + length ss, 4 * length ss + bytes_of ss)
unfolding measure_args
measure_args_lem zero sfuel m args i ss v enough short = absurd (omega arith)
measure_args_lem (suc fuel) sfuel m args i [] end enough short = ground (arith, end)
measure_args_lem (suc fuel) sfuel m args i (s ∷ ss) (nonnull, string, later) enough short =
    let there : args + 4 * i + 4 ≡ args + 4 * (i + 1) = omega arith in
    let live : (word m (args + 4 * i) == 0) ≡ false = ground (arith, nonnull) in
    let len = strlen_lem s sfuel m (word m (args + 4 * i)) string short.0 in
    let rest =
      measure_args_lem fuel sfuel m args (i + 1) ss (rw (← there) later) (omega (arith, enough))
        short.1 in
    let count : i + 1 + length ss ≡ i + suc (length ss) = omega arith in
    let size : 4 + length s + 1 + (4 * length ss + bytes_of ss)
        ≡ 4 * suc (length ss) + (length s + 1 + bytes_of ss) =
      omega arith in
    rw (live, len, rest, count, size) refl
