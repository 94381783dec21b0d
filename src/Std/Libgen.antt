-- ===== src/Std/Libgen.antt =====
-- dirname and basename of kernel/src/std/libgen.c. The loop up to the end of a string runs on fuel;
-- `none` is out of fuel.
use native.Mathlib.Nat.{add-zero}
use mathlib.Core.Path.{subst}
use lambda_os.Prelude.{
  ℕ, zero, suc, ◌+◌, ◌<◌, ◌≡◌, ◌≢◌, Option, none, some, List, [], ◌∷◌, ◌++◌, ◌==◌, if◌then◌else◌,
  All, length, arith,
}
use lambda_os.Std.Memory.{Memory, store, CString}

-- `p2` at the end of the loop: the last separator, with `none` for NULL.
pub last_slash : ℕ → Memory → ℕ → Option ℕ → Option (Option ℕ)
last_slash zero m p1 p2 = none
last_slash (suc f) m p1 p2 =
    let rest = last_slash f m (p1 + 1) (if m p1 == b'/' then some p1 else p2) in
    if m p1 == 0 then some p2 else rest

-- The memory that `dirname` leaves; it returns `path`.
pub dirname : ℕ → Memory → ℕ → Option Memory
unfolding last_slash
dirname fuel m path = elim (last_slash fuel m path none) [
  | none ↦ none
  | some none ↦ some (store (store m path b'.') (path + 1) 0)
  | some (some p2) ↦ some (store m p2 0)
]

pub basename : ℕ → Memory → ℕ → Option ℕ
unfolding last_slash
basename fuel m path = elim (last_slash fuel m path none) [
  | none ↦ none
  | some none ↦ some path
  | some (some p2) ↦ some (p2 + 1)
]

last_slash_plain :
    (s : List ℕ) (fuel : ℕ) (m : Memory) (p : ℕ) (p2 : Option ℕ)
    → CString m p s
    → All (λ c. c ≢ b'/') s
    → length s < fuel
    → last_slash fuel m p p2 ≡ some p2
unfolding last_slash
last_slash_plain s zero m p p2 c a h = absurd (omega arith)
last_slash_plain [] (suc f) m p p2 c a h = ground (arith, c)
last_slash_plain (x ∷ s) (suc f) m p p2 c a h =
    ground (arith, c.0, c.1, a.0, last_slash_plain s f m (p + 1) p2 c.2 a.1 (omega arith))

last_slash-append :
    (d n : List ℕ) (fuel : ℕ) (m : Memory) (p : ℕ) (p2 : Option ℕ)
    → CString m p (d ++ b'/' ∷ n)
    → All (λ c. c ≢ b'/') n
    → length (d ++ b'/' ∷ n) < fuel
    → last_slash fuel m p p2 ≡ some (some (p + length d))
unfolding last_slash
last_slash-append d n zero m p p2 c a h = absurd (omega arith)
last_slash-append [] n (suc f) m p p2 c a h =
    ground (arith, c.0, last_slash_plain n f m (p + 1) (some p) c.2 a (omega arith))
last_slash-append (x ∷ d) n (suc f) m p p2 c a h = ground (
  arith,
  c.0,
  c.1,
  last_slash-append d n f m (p + 1) (if m p == b'/' then some p else p2) c.2 a (omega arith),
)

CString-append :
    (d n : List ℕ) (m : Memory) (p : ℕ)
    → CString m p (d ++ b'/' ∷ n)
    → CString (store m (p + length d) 0) p d × CString m (p + length d + 1) n
CString-append [] n m p c = (ground arith, rw add-zero c.2)
CString-append (x ∷ d) n m p c =
    let (dir, base) = CString-append d n m (p + 1) c.2 in
    let same : p + 1 + length d ≡ p + suc (length d) = omega arith in
    (
      (ground (arith, c.0), c.1, subst (λ z. CString (store m z 0) (p + 1) d) same dir),
      subst (λ z. CString m (z + 1) n) same base,
    )

-- If a path is a part, a separator and a name with no separator, and the fuel is above its length,
-- basename returns a pointer to the name, and dirname leaves the first part as the string at the
-- path.
pub dirname-basename :
    (d n : List ℕ) (fuel : ℕ) (m : Memory) (p : ℕ)
    → CString m p (d ++ b'/' ∷ n)
    → All (λ c. c ≢ b'/') n
    → length (d ++ b'/' ∷ n) < fuel
    → (m' : Memory) × (q : ℕ) × (basename fuel m p ≡ some q)
      × CString m q n
      × (dirname fuel m p ≡ some m')
      × CString m' p d
unfolding dirname basename
dirname-basename d n fuel m p c a h =
    let at = last_slash-append d n fuel m p none c a h in
    let (dir, base) = CString-append d n m p c in
    (store m (p + length d) 0, p + length d + 1, ground (arith, at), base, ground (arith, at), dir)
