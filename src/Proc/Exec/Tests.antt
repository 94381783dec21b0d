-- ===== src/Proc/Exec/Tests.antt =====
-- One argument and no environment, on which the theorem applies.
use lambda_os.Prelude.{ℕ, ◌≡◌, inr, refl, some, List, [], ◌∷◌, ◌==◌, if◌then◌else◌, arith}
use lambda_os.Std.Memory.{Memory}
use lambda_os.Proc.Exec.{Copied, store_arguments}
use lambda_os.Proc.Exec.Fill.{Stored, store_arguments_lem}

-- A table at 100 with a pointer to "a" at 200, and an empty table at 300.
abbrev tables : Memory
tables q = if q == 100 then 200 else if q == 200 then 97 else 0

abbrev one_arg : List (List ℕ)
one_arg = (97 ∷ []) ∷ []

store_arguments_example :
    (c : Copied) × (store_arguments (λ n. 1000) 5 5 tables 100 300 ≡ some c)
    × Stored tables 1000 14 one_arg [] c
store_arguments_example =
    store_arguments_lem 5 100 300 1000 tables one_arg []
      ((λ e. omega (arith, e)), (refl, (λ e. omega (arith, e)), refl), refl) refl
      (inr (omega arith), inr (omega arith), inr (omega arith)) (inr (omega arith))
      (omega arith, tt) tt (omega arith) (λ n. 1000) 5 refl (omega arith) (omega arith)
