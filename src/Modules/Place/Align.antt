-- ===== src/Modules/Place/Align.antt =====
-- FORCE_ALIGN on masks of low bits.
use Prim.Native.Nat.{bit_and}
use lambda_os.Prelude.{ℕ, ◌+◌, ◌-◌, ◌^◌, ◌≤◌, ◌<◌, ◌≡◌, inl, inr, ◌∙◌, ◌==◌, Bool-cases, arith}
use lambda_os.Prelude.Word.{add32}
use lambda_os.Prelude.Bits.{ones, low_few, bit_and-ones, bit_and_mask}
use lambda_os.Modules.Place.{force_align}

-- For a mask of at most 32 low bits, where a value with the mask added is below 2 ^ 32, FORCE_ALIGN gives
-- a value that is not below the first one, exceeds it by the mask at most, and has no bit of the mask.
pub force_align_lem :
    (k v : ℕ)
    → k ≤ 32
    → v + ones k < 2 ^ 32
    → (v ≤ force_align v (ones k))
      × (force_align v (ones k) ≤ v + ones k)
      × (bit_and (force_align v (ones k)) (ones k) ≡ 0)
unfolding force_align
force_align_lem k v few small = elim (Bool-cases (bit_and v (ones k) == 0)) [
  | inl aligned ↦ rw aligned (omega arith, omega arith, ground (arith, aligned))
  | inr other ↦
      let sum : add32 v (ones k) ≡ v + ones k = omega (arith, small) in
      let (whole, even) = bit_and_mask k (v + ones k) few small in
      let r = bit_and (v + ones k) (2 ^ 32 - 1 - ones k) in
      let rest = low_few k (v + ones k) in
      rw (other, sum) (omega (arith, whole, rest), omega (arith, whole), bit_and-ones k r ∙ even)
]
