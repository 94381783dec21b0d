-- ===== src/User/Environ/Tests.antt =====
-- The environment "A=1" and "PA=2", and instances of the theorems on it.
use lambda_os.Prelude.{ℕ, ◌≡◌, true, some, List, [], ◌∷◌, arith}
use lambda_os.User.Environ.{getenv, setenv}
use lambda_os.User.Environ.Variable.{getenv-setenv, setenv_overwrites}

abbrev entries : List (List ℕ)
entries = (65 ∷ 61 ∷ 49 ∷ []) ∷ (80 ∷ 65 ∷ 61 ∷ 50 ∷ []) ∷ []

getenv-setenv_example :
    (es' : List (List ℕ)) × (setenv true true (some (72 ∷ [])) (some (51 ∷ [])) true (some entries)
      ≡ (0, some es'))
    × (getenv (72 ∷ []) (some es') ≡ some (51 ∷ []))
getenv-setenv_example = getenv-setenv (72 ∷ []) (51 ∷ []) entries (omega arith) (omega arith)

longer_value :
    (getenv (65 ∷ 66 ∷ []) (some entries) ≡ some (49 ∷ []))
    × (setenv true true (some (65 ∷ 66 ∷ [])) (some (51 ∷ [])) true (some entries)
        ≡ (0, some ((65 ∷ 66 ∷ 61 ∷ 51 ∷ []) ∷ (80 ∷ 65 ∷ 61 ∷ 50 ∷ []) ∷ [])))
longer_value =
    setenv_overwrites (65 ∷ []) (66 ∷ []) (49 ∷ []) (51 ∷ []) ((80 ∷ 65 ∷ 61 ∷ 50 ∷ []) ∷ [])
      (omega arith) (omega arith)
