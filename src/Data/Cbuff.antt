-- ===== src/Data/Cbuff.antt =====
-- The circular byte buffer of kernel/src/data/cbuff.c.
-- A `cbuff_t *` is an option, with `none` for NULL, and so is the data argument of `cbuff_write`.
-- `put`, `get`, `write` and `read` are what the functions do behind their NULL tests.
pub mod Codes
pub mod Queue
pub mod Invariant
pub mod Window
pub mod Refine
pub mod Transfer
pub mod Life
mod Tests
use lambda_os.Prelude.{
  ℕ, zero, suc, ◌+◌, ◌-◌, ◌/◌, ◌≡◌, Bool, true, false, Option, none, some, List, [], ◌∷◌, ◌==◌, ltb,
  leb, if◌then◌else◌, get_or, set, length,
}
use lambda_os.Prelude.Word.{add32, sub32, neg}
use lambda_os.Data.Cbuff.Codes.{enomem, einval, enodata}

-- `cbuff_t`; `buff` is `none` where the pointer is NULL.
pub record Cbuff : Type 0 where
  pub begin : ℕ
  pub count : ℕ
  pub size : ℕ
  pub buff : Option (List ℕ)

-- The macro WRAP.
abbrev pub wrap : ℕ → ℕ → ℕ
wrap n m = if leb m n then n - m else n

-- `cbuff_allocate`: `kmalloc` is what the call of kmalloc returns. The `memset` clears as many bytes
-- as a pointer has, which is the field `begin` alone.
unfoldable pub allocate : Option (List ℕ) → ℕ → Cbuff → ℕ × Cbuff
allocate kmalloc size c = if size == 0 then (neg 1, c) else elim kmalloc [
  | none ↦ (neg 1, record c { begin = 0; size = size; buff = none })
  | some b ↦ (0, record c { begin = 0; size = size; buff = some b })
]

-- What `cbuff_free` leaves.
unfoldable pub free : Cbuff → Cbuff
free c = record { begin = 0; count = 0; size = 0; buff = none }

store : ℕ → Cbuff → List ℕ → Cbuff
store x c b = record c {
  buff = some (set b (wrap (add32 c.begin c.count) c.size) x);
  count = add32 c.count 1;
}

unfoldable pub put : ℕ → Cbuff → ℕ × Cbuff
unfolding store
put x c = elim c.buff [
  | none ↦ (neg einval, c)
  | some b ↦ if leb c.size c.count then (neg enomem, c) else (0, store x c b)
]

unfoldable pub get : Cbuff → ℕ × Cbuff
get c = elim c.buff [
  | none ↦ (neg einval, c)
  | some b ↦ if c.count == 0 then (neg enomem, c) else (
    get_or b c.begin 0,
    record c { begin = wrap (add32 c.begin 1) c.size; count = sub32 c.count 1 },
  )
]

write_loop : List ℕ → Cbuff → ℕ × Cbuff
write_loop [] c = (0, c)
write_loop (x ∷ xs) c = let (err, c') = put x c in if err == 0 then write_loop xs c' else (err, c')

-- `cbuff_write` of the bytes `xs`.
pub write : List ℕ → Cbuff → ℕ × Cbuff
unfolding write_loop
write xs c = elim c.buff [
  | none ↦ (neg einval, c)
  | some _ ↦ if ltb (sub32 c.size c.count) (length xs) then (neg enomem, c) else write_loop xs c
]

-- The loop of `cbuff_read` stores each byte; a result with a bit above the lowest eight is an error.
read_loop : ℕ → Cbuff → ℕ × List ℕ × Cbuff
read_loop zero c = (0, [], c)
read_loop (suc n) c =
    let (err, c') = get c in
    let (ret, out, c'') = read_loop n c' in
    if err / 256 == 0 then (ret, err ∷ out, c'') else (err, [], c')

-- `cbuff_read` of `n` bytes: the result, the bytes stored and the buffer.
pub read : ℕ → Cbuff → ℕ × List ℕ × Cbuff
unfolding read_loop
read n c = elim c.buff [
  | none ↦ (neg einval, [], c)
  | some _ ↦ if ltb c.count n then (neg enodata, [], c) else read_loop n c
]

-- The functions with their tests of the pointers.
pub cbuff_put : ℕ → Option Cbuff → ℕ × Option Cbuff
cbuff_put x none = (neg einval, none)
cbuff_put x (some c) = let (r, c') = put x c in (r, some c')

pub cbuff_get : Option Cbuff → ℕ × Option Cbuff
cbuff_get none = (neg einval, none)
cbuff_get (some c) = let (r, c') = get c in (r, some c')

pub cbuff_write : Option (List ℕ) → Option Cbuff → ℕ × Option Cbuff
cbuff_write none c = (neg einval, c)
cbuff_write (some xs) none = (neg einval, none)
cbuff_write (some xs) (some c) = let (r, c') = write xs c in (r, some c')

pub cbuff_read : (to_null : Bool) → ℕ → Option Cbuff → ℕ × List ℕ × Option Cbuff
cbuff_read true n c = (neg einval, [], c)
cbuff_read false n none = (neg einval, [], none)
cbuff_read false n (some c) = let (r, out, c') = read n c in (r, out, some c')
