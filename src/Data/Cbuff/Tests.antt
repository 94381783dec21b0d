-- ===== src/Data/Cbuff/Tests.antt =====
-- Runs of the circular buffer, and instances of its theorems.
use lambda_os.Prelude.{◌≢◌, ◌≡◌, refl, none, some, [], ◌∷◌, arith}
use lambda_os.Prelude.Word.{neg}
use lambda_os.Data.Cbuff.{Cbuff, allocate, put, get, write, read, cbuff_put, cbuff_get}
use lambda_os.Data.Cbuff.Codes.{einval, enomem}
use lambda_os.Data.Cbuff.Queue
use lambda_os.Data.Cbuff.Invariant.{IsValid}
use lambda_os.Data.Cbuff.Refine.{contents, put_refines, get_refines}
use lambda_os.Data.Cbuff.Transfer.{write_refines, read_refines}
use lambda_os.Data.Cbuff.Life.{allocate_empty, allocate_stale, read-write}

-- 8 and 9 round the end of four bytes.
abbrev wrapped : Cbuff
wrapped = record { begin = 3; count = 2; size = 4; buff = some (9 ∷ 1 ∷ 2 ∷ 8 ∷ []) }

abbrev unset : Cbuff
unset = record { begin = 0; count = 0; size = 0; buff = none }

abbrev stale : Cbuff
stale = record { begin = 7; count = 2; size = 0; buff = none }

wrapped-IsValid : IsValid wrapped
wrapped-IsValid = omega arith

null_handle : (cbuff_put 5 none ≡ (neg einval, none)) × (cbuff_get none ≡ (neg einval, none))
unfolding cbuff_put cbuff_get
null_handle = (refl, refl)

full_write : (write (1 ∷ 2 ∷ 3 ∷ []) wrapped).0 ≡ neg enomem
unfolding write
full_write = refl

put-wrapped :
    let (r, c) = put 5 wrapped in ((r, contents c) ≡ Queue.put 4 5 (8 ∷ 9 ∷ [])) × IsValid c
put-wrapped = put_refines 5 wrapped-IsValid

get-wrapped : let (r, c) = get wrapped in ((r, contents c) ≡ Queue.get (8 ∷ 9 ∷ [])) × IsValid c
get-wrapped = get_refines wrapped-IsValid

write_refines_example :
    let (r, c) = write (5 ∷ 6 ∷ []) wrapped in
    ((r, contents c) ≡ Queue.write 4 (5 ∷ 6 ∷ []) (8 ∷ 9 ∷ [])) × IsValid c
write_refines_example = write_refines (5 ∷ 6 ∷ []) wrapped-IsValid

read_refines_example :
    let (r, out, c) = read 2 wrapped in
    ((r, out, contents c) ≡ Queue.read 2 (8 ∷ 9 ∷ [])) × IsValid c
read_refines_example = read_refines 2 wrapped-IsValid (omega arith)

fresh_buffer :
    let (r, c) = allocate (some (0 ∷ 0 ∷ [])) 2 unset in (r ≡ 0) × IsValid c × (contents c ≡ [])
fresh_buffer = allocate_empty (0 ∷ 0 ∷ []) 2 unset (omega arith) (omega arith) refl refl

stale_buffer : let (r, c) = allocate (some (0 ∷ 0 ∷ [])) 2 stale in (r ≡ 0) × (contents c ≢ [])
stale_buffer = allocate_stale (0 ∷ 0 ∷ []) 2 stale (omega arith) (omega arith)

written_back :
    let (r, c) = write (5 ∷ []) wrapped in
    let (r', out, c') = read 3 c in (r ≡ 0) × (r' ≡ 0) × (out ≡ 8 ∷ 9 ∷ 5 ∷ []) × (contents c' ≡ [])
written_back = read-write (5 ∷ []) wrapped-IsValid (omega arith) (omega arith)
