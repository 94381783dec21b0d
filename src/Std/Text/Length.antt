-- ===== src/Std/Text/Length.antt =====
-- strlen and strchr find the end of a string and a character in it.
use native.Mathlib.Nat.{add_assoc, add-zero}
use mathlib.Core.Option
use lambda_os.Prelude.{
  ℕ, zero, suc, ◌+◌, ◌%◌, ◌^◌, ◌<◌, ◌≡◌, List, [], ◌∷◌, none, some, Option, ◌==◌, if◌then◌else◌,
  arith, length,
}
use lambda_os.Std.Memory.{Memory, CString}
use lambda_os.Std.Text.{strlen_loop, strlen, strchr}

strlen_loop_lem :
    (s : List ℕ) (fuel : ℕ) (m : Memory) (p i : ℕ)
    → CString m (p + i) s
    → length s < fuel
    → strlen_loop fuel m p i ≡ some (i + length s)
unfolding strlen_loop
strlen_loop_lem [] zero m p i c h = absurd (omega arith)
strlen_loop_lem [] (suc f) m p i c h = ground arith
strlen_loop_lem (x ∷ s) zero m p i c h = absurd (omega arith)
strlen_loop_lem (x ∷ s) (suc f) m p i c h =
    let next : CString m (p + (i + 1)) s = rw (← add_assoc) c.2 in
    ground (arith, c.0, c.1, strlen_loop_lem s f m p (i + 1) next (omega arith))

-- On a string, with fuel above its length, strlen returns its length.
pub strlen_lem :
    (s : List ℕ) (fuel : ℕ) (m : Memory) (p : ℕ)
    → CString m p s
    → length s < fuel
    → strlen fuel m p ≡ some (length s)
unfolding strlen
strlen_lem s fuel m p c h = ground (arith, strlen_loop_lem s fuel m p 0 (rw add-zero c) h)

-- Where a list has a value first.
abbrev pub index_of : ℕ → List ℕ → Option ℕ
index_of c [] = none
index_of c (x ∷ s) = if x == c then some 0 else Option.map suc (index_of c s)

-- On a string, with fuel above its length, strchr returns the address of the first of its
-- characters that is the low byte of the value, and NULL if none is, also for the value 0.
pub strchr_lem :
    (s : List ℕ) (fuel : ℕ) (m : Memory) (p c : ℕ)
    → CString m p s
    → length s < fuel
    → strchr fuel m p c ≡ some (Option.map (λ i. p + i) (index_of (c % 2 ^ 8) s))
unfolding strchr
strchr_lem [] zero m p c str h = absurd (omega arith)
strchr_lem [] (suc f) m p c str h = ground arith
strchr_lem (x ∷ s) zero m p c str h = absurd (omega arith)
strchr_lem (x ∷ s) (suc f) m p c str h =
    ground (arith, str.0, str.1, strchr_lem s f m (p + 1) c str.2 (omega arith))
