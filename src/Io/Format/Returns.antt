-- ===== src/Io/Format/Returns.antt =====
-- The loop of `print` on any format.
use lambda_os.Prelude.{
  ℕ, zero, suc, ◌%◌, ◌^◌, ◌≤◌, ◌≡◌, inl, inr, refl, ◌∙◌, Bool, true, false, ◌&&◌, Option, some,
  List, [], ◌∷◌, ◌++◌, ◌==◌, leb, if◌then◌else◌, length, Bool-cases, arith,
}
use lambda_os.Prelude.Word.{add32}
use lambda_os.Std.Memory.{Memory}
use lambda_os.Std.Bytes.Compare.{IsBytes}
use lambda_os.Io.Number.{get_dec}
use lambda_os.Io.Number.Behind.{NoDot, get_dec_behind, get_dec_rest}
use lambda_os.Io.Format.{Printing, zero_all_vid, in_spec, outside, print_loop, print}
use lambda_os.Io.Format.Count.{Terminated, Counted, count_more, convert-Goes}

-- There are variables and a place in the format no later than `rest`, which count and have no precision
-- if that was so before.
Steps : Bool → List ℕ → Printing → Option (Printing × List ℕ) → Type 0
Steps dot rest st r =
    (st' : Printing) × (behind : List ℕ) × (r ≡ some (st', behind))
    × (length behind ≤ length rest)
    × (NoDot rest → NoDot behind)
    × (dot ≡ false → Counted st → Counted st')

in_spec-Steps :
    (sfuel : ℕ) (m : Memory) (c : ℕ) (rest : List ℕ) (st : Printing)
    → IsBytes m
    → Terminated sfuel m
    → sfuel ≤ 2 ^ 32
    → Steps (c == 46) rest st (in_spec sfuel m c rest st)
unfolding in_spec Steps
in_spec-Steps sfuel m c rest st b ends small = elim (Bool-cases (c == 37)) [
  | inl percent ↦ (
    record st {
      spec = record st.spec { is_in_spec = false };
      out = st.out ++ (37 ∷ []);
      nchars = add32 st.nchars 1;
    },
    rest,
    rw (percent, in_spec) refl,
    omega arith,
    (λ h. h),
    λ d h. (h.0, count_more st.nchars st.out (37 ∷ []) h.1),
  )
  | inr not_percent ↦ elim (Bool-cases (leb 49 c && leb c 57)) [
    | inl digit ↦
        let (shorter, dots) = get_dec_behind c rest digit in
        (
          record st { spec = record st.spec { width = (get_dec (c ∷ rest)).0 % 2 ^ 8 } },
          (get_dec (c ∷ rest)).1,
          rw (not_percent, digit, in_spec) refl,
          shorter,
          dots,
          λ d h. h,
        )
    | inr not_digit ↦ elim (Bool-cases (c == 46)) [
      | inl dot ↦
          let (shorter, dots) = get_dec_rest rest in
          (
            record st { spec = record st.spec { precision = (get_dec rest).0 % 2 ^ 8 } },
            (get_dec rest).1,
            rw (not_percent, not_digit, dot, in_spec) refl,
            shorter,
            dots,
            λ d h. ground (arith, d, dot),
          )
      | inr not_dot ↦
          let (st', runs, goes) = convert-Goes sfuel m c st b ends small in
          (
            st',
            rest,
            rw (not_percent, not_digit, not_dot, runs, in_spec) refl,
            omega arith,
            (λ h. h),
            λ d h. goes h,
          )
    ]
  ]
]

outside-Counted : (c : ℕ) (st : Printing) → Counted st → Counted (outside c st)
outside-Counted c st h = elim (Bool-cases (c == 37)) [
  | inl percent ↦ rw percent h
  | inr other ↦ rw other (h.0, count_more st.nchars st.out (c ∷ []) h.1)
]

-- The loop ends, and has counted where the format has no precision.
Ends : List ℕ → Printing → Option Printing → Type 0
Ends format st r = (st' : Printing) × (r ≡ some st') × (NoDot format → Counted st → Counted st')

-- One round of the loop.
pub print_loop_next :
    (fuel sfuel : ℕ) (m : Memory) (c : ℕ) (rest : List ℕ) (st st' : Printing) (behind : List ℕ)
    → (if st.spec.is_in_spec then in_spec sfuel m c rest st else some (outside c st, rest))
      ≡ some (st', behind)
    → print_loop (suc fuel) sfuel m (c ∷ rest) st ≡ print_loop fuel sfuel m behind st'
unfolding print_loop
print_loop_next fuel sfuel m c rest st st' behind runs = rw (runs, print_loop) refl

if-Steps :
    (dot : Bool) (rest : List ℕ) (st : Printing) (b : Bool) (x y : Option (Printing × List ℕ))
    → Steps dot rest st x
    → Steps dot rest st y
    → Steps dot rest st (if b then x else y)
if-Steps dot rest st true x y sx sy = sx
if-Steps dot rest st false x y sx sy = sy

module _ (sfuel : ℕ) (m : Memory) (b : IsBytes m) (ends : Terminated sfuel m)
    (small : sfuel ≤ 2 ^ 32) where
  step-Steps :
      (c : ℕ) (rest : List ℕ) (st : Printing)
      → Steps
          (c == 46)
          rest
          st
          (if st.spec.is_in_spec then in_spec sfuel m c rest st else some (outside c st, rest))
  unfolding Steps
  step-Steps c rest st =
      if-Steps (c == 46) rest st st.spec.is_in_spec _ _
        (in_spec-Steps sfuel m c rest st b ends small)
        (outside c st, rest, refl, omega arith, (λ h. h), λ d h. outside-Counted c st h)

  print_loop-Ends :
      (fuel : ℕ) (format : List ℕ) (st : Printing)
      → length format ≤ fuel
      → Ends format st (print_loop fuel sfuel m format st)
  unfolding print_loop Ends Steps
  print_loop-Ends fuel [] st enough = (st, refl, λ d h. h)
  print_loop-Ends zero (c ∷ rest) st enough = absurd (omega arith)
  print_loop-Ends (suc fuel) (c ∷ rest) st enough =
      let (st', behind, runs, shorter, dots, goes) = step-Steps c rest st in
      let (end, later, counts) = print_loop-Ends fuel behind st' (omega (arith, shorter, enough)) in
      (
        end,
        print_loop_next fuel sfuel m c rest st st' behind runs ∙ later,
        λ d h. counts (dots d.1) (goes (ground (arith, d.0)) h),
      )

  -- If memory holds bytes, a string shorter than the fuel for strings starts at every address,
  -- that fuel is at most 2 ^ 32, and the fuel is at least the length of the format, then print
  -- returns for every format, and where the format has no full stop, its result is the number of
  -- the characters it put out, modulo 2 ^ 32.
  pub print_returns :
      (fuel : ℕ) (format : List ℕ) (varg : ℕ)
      → length format ≤ fuel
      → (n : ℕ) × (out : List ℕ) × (print fuel sfuel m format varg ≡ some (n, out))
        × (NoDot format → n ≡ length out % 2 ^ 32)
  unfolding print Ends
  print_returns fuel format varg enough =
      let start : Printing = record { spec = zero_all_vid; varg = varg; out = []; nchars = 0 } in
      let (end, runs, counts) = print_loop-Ends fuel format start enough in
      (end.nchars, end.out, rw (runs, print) refl, λ d. (counts d (refl, refl)).1)
