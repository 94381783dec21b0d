-- ===== src/Data/Cbuff/Queue.antt =====
-- What the circular buffer promises: a bounded queue of bytes.
use lambda_os.Prelude.{ℕ, ◌-◌, List, [], ◌∷◌, ◌++◌, ltb, leb, if◌then◌else◌, length, take, drop}
use lambda_os.Prelude.Word.{neg}
use lambda_os.Data.Cbuff.Codes.{enomem, enodata}

unfoldable pub put : ℕ → ℕ → List ℕ → ℕ × List ℕ
put size x q = if leb size (length q) then (neg enomem, q) else (0, q ++ x ∷ [])

unfoldable pub get : List ℕ → ℕ × List ℕ
get [] = (neg enomem, [])
get (x ∷ q) = (x, q)

-- All of the bytes or none.
unfoldable pub write : ℕ → List ℕ → List ℕ → ℕ × List ℕ
write size xs q = if ltb (size - length q) (length xs) then (neg enomem, q) else (0, q ++ xs)

unfoldable pub read : ℕ → List ℕ → ℕ × List ℕ × List ℕ
read n q = if ltb (length q) n then (neg enodata, [], q) else (0, take n q, drop n q)
