-- ===== src/Data/Cbuff/Transfer.antt =====
-- `cbuff_write` and `cbuff_read`: a whole transfer or none.
use mathlib.Core.List.{append-nil, append_assoc}
use lambda_os.Prelude.{
  ℕ, zero, suc, ◌-◌, ◌^◌, ◌<◌, ◌≤◌, ◌≡◌, refl, List, [], ◌∷◌, ◌++◌, arith, length, length-append,
  take, drop, All,
}
use lambda_os.Data.Cbuff.{Cbuff, put, get, write_loop, write, read_loop, read}
use lambda_os.Data.Cbuff.Queue
use lambda_os.Data.Cbuff.Invariant.{IsValid, put-IsValid, get-IsValid}
use lambda_os.Data.Cbuff.Refine.{contents, length-contents, put_refines, get_refines}

pub size-put : (c : Cbuff) (x : ℕ) → (put x c).1.size ≡ c.size
unfolding put
size-put c x = ground arith

pub put-ok :
    {c : Cbuff} (x : ℕ)
    → IsValid c
    → c.count < c.size
    → ((put x c).0 ≡ 0)
      × (contents (put x c).1 ≡ contents c ++ x ∷ [])
      × ((put x c).1.count ≡ suc c.count)
unfolding Queue.put
put-ok {c} x v room = ground (
  arith,
  put_refines x v,
  length-contents c,
  length-contents (put x c).1,
  length-append (contents c) (x ∷ []),
)

-- What a transfer into the buffer leaves, from `c` and the bytes `xs`.
record Wrote (c : Cbuff) (xs : List ℕ) (out : ℕ × Cbuff) : Type 0 where
  done : out.0 ≡ 0
  valid : IsValid out.1
  bytes : contents out.1 ≡ contents c ++ xs

write_loop-Wrote :
    (xs : List ℕ) {c : Cbuff}
    → IsValid c
    → length xs ≤ c.size - c.count
    → Wrote c xs (write_loop xs c)
unfolding write_loop
write_loop-Wrote [] {c} v room = record { done = refl; valid = v; bytes = rw append-nil }
write_loop-Wrote (x ∷ xs) {c} v room = ground (
  arith,
  put-ok x v (omega arith),
  size-put c x,
  write_loop-Wrote xs (put-IsValid x v),
  append_assoc (contents c) (x ∷ []) xs,
)

-- On a valid buffer the write of cbuff_write returns the result of the bounded queue, appends all
-- of the bytes or changes nothing, as the queue does, and the buffer stays valid.
pub write_refines :
    {c : Cbuff} (xs : List ℕ)
    → IsValid c
    → let (r, c') = write xs c in
      ((r, contents c') ≡ Queue.write c.size xs (contents c)) × IsValid c'
unfolding write Queue.write
write_refines {c} xs v = ground (arith, length-contents c, write_loop-Wrote xs v)

abbrev pub IsByte : ℕ → Type 0
IsByte x = x < 2 ^ 8

record Took (c : Cbuff) (n : ℕ) (out : ℕ × List ℕ × Cbuff) : Type 0 where
  done : out.0 ≡ 0
  valid : IsValid out.2
  bytes : out.1 ≡ take n (contents c)
  rest : contents out.2 ≡ drop n (contents c)

get-ok :
    {c : Cbuff} (x : ℕ) (q : List ℕ)
    → IsValid c
    → contents c ≡ x ∷ q
    → ((get c).0 ≡ x) × (contents (get c).1 ≡ q)
unfolding Queue.get
get-ok {c} x q v e = ground (arith, (get_refines v).0)

read_loop-Took :
    (n : ℕ) (q : List ℕ) {c : Cbuff}
    → contents c ≡ q
    → IsValid c
    → All IsByte q
    → n ≤ length q
    → Took c n (read_loop n c)
unfolding read_loop
read_loop-Took zero q e v bytes room = record { done = refl; valid = v; bytes = refl; rest = refl }
read_loop-Took (suc n) [] e v bytes room = absurd (omega arith)
read_loop-Took (suc n) (x ∷ q) {c} e v bytes room =
    let step = get-ok x q v e in
    ground (arith, step, read_loop-Took n q step.1 (get-IsValid v) bytes.1)

-- On a valid buffer that holds bytes below 256 the read of cbuff_read returns the result and the
-- bytes of the bounded queue, leaves the rest or changes nothing, as the queue does, and the
-- buffer stays valid.
pub read_refines :
    {c : Cbuff} (n : ℕ)
    → IsValid c
    → All IsByte (contents c)
    → let (r, out, c') = read n c in
      ((r, out, contents c') ≡ Queue.read n (contents c)) × IsValid c'
unfolding read Queue.read
read_refines {c} n v bytes =
    ground (arith, length-contents c, read_loop-Took n (contents c) refl v bytes)
