-- ===== src/Data/Cbuff/Invariant.antt =====
-- The representation invariant of the circular buffer, and that each operation keeps it.
use lambda_os.Prelude.{ℕ, ◌^◌, ◌≤◌, ◌<◌, none, some, List, [], arith, length, length-set}
use lambda_os.Prelude.Word.{add32}
use lambda_os.Data.Cbuff.{Cbuff, wrap, put, get}

-- The bytes behind the pointer.
abbrev pub cells : Cbuff → List ℕ
cells c = elim c.buff [ none ↦ [] | some b ↦ b ]

pub record IsValid (c : Cbuff) : Type 0 where
  pub storage : c.size ≤ length (cells c)
  pub small : c.size ≤ 2 ^ 31
  pub begin_in : c.begin < c.size
  pub count_in : c.count ≤ c.size

pub put-IsValid : {c : Cbuff} (x : ℕ) → IsValid c → IsValid (put x c).1
unfolding put
put-IsValid {c} x v = ground (arith, length-set (cells c) (wrap (add32 c.begin c.count) c.size) x)

pub get-IsValid : {c : Cbuff} → IsValid c → IsValid (get c).1
unfolding get
get-IsValid {c} v = ground arith
