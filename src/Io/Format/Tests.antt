-- ===== src/Io/Format/Tests.antt =====
-- Formats on which the theorems apply.
use lambda_os.Prelude.{ℕ, ◌%◌, ◌^◌, ◌≡◌, refl, some, List, [], ◌∷◌, length, arith}
use lambda_os.Std.Memory.{Memory, memory_of}
use lambda_os.Std.Bytes.Compare.{IsBytes, memory_of-IsBytes}
use lambda_os.Io.Number.Behind.{NoDot}
use lambda_os.Io.Format.{print}
use lambda_os.Io.Format.Count.{Terminated}
use lambda_os.Io.Format.Returns.{print_returns}
use lambda_os.Io.Format.Printed.{plain, hex, string}
use lambda_os.Io.Format.Pieces.{Shows, print-Shows}

abbrev zeroes : Memory
zeroes q = 0

zeroes-Terminated : Terminated 1 zeroes
zeroes-Terminated p = ([], refl, omega arith)

-- "%5d!" of 0.
print_returns_example :
    (n : ℕ) × (out : List ℕ) × (print 4 1 zeroes (37 ∷ 53 ∷ 100 ∷ 33 ∷ []) 0 ≡ some (n, out))
    × (NoDot (37 ∷ 53 ∷ 100 ∷ 33 ∷ []) → n ≡ length out % 2 ^ 32)
print_returns_example =
    print_returns 1 zeroes (λ p. omega arith) zeroes-Terminated (omega arith) 4
      (37 ∷ 53 ∷ 100 ∷ 33 ∷ []) 0 (omega arith)

-- The arguments 7 and a string at 8.
abbrev arguments : Memory
arguments = memory_of (7 ∷ 0 ∷ 0 ∷ 0 ∷ 8 ∷ 0 ∷ 0 ∷ 0 ∷ 104 ∷ 105 ∷ [])

arguments-IsBytes : IsBytes arguments
arguments-IsBytes = memory_of-IsBytes (7 ∷ 0 ∷ 0 ∷ 0 ∷ 8 ∷ 0 ∷ 0 ∷ 0 ∷ 104 ∷ 105 ∷ []) (omega arith)

-- "%x %s" shows "7 hi".
print-Shows_example :
    (out : List ℕ) × (print 5 3 arguments (37 ∷ 120 ∷ 32 ∷ 37 ∷ 115 ∷ []) 0
      ≡ some (length out % 2 ^ 32, out))
    × Shows arguments 0 (hex ∷ plain 32 ∷ string ∷ []) out
print-Shows_example =
    print-Shows 5 3 arguments (hex ∷ plain 32 ∷ string ∷ []) 0 (omega arith) arguments-IsBytes
      (
        (λ e. omega (arith, e)),
        (
          (λ e. omega (arith, e)),
          (
            104 ∷ 105 ∷ [],
            (refl, (λ e. omega (arith, e)), (refl, (λ e. omega (arith, e)), refl)),
            omega arith,
          ),
          tt,
        ),
      )
      (omega arith)
