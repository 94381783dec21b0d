-- ===== src/Data/Cbuff/Refine.antt =====
-- A valid circular buffer behaves as the queue of the bytes that it holds, one byte at a time.
use lambda_os.Prelude.{ℕ, ◌≡◌, List, arith, length}
use lambda_os.Prelude.Word.{add32}
use lambda_os.Data.Cbuff.{Cbuff, wrap, put, get}
use lambda_os.Data.Cbuff.Queue
use lambda_os.Data.Cbuff.Invariant.{cells, IsValid, put-IsValid, get-IsValid}
use lambda_os.Data.Cbuff.Window.{window, length-window, window_of_pos, window-set}

abbrev pub contents : Cbuff → List ℕ
contents c = window (cells c) c.size c.begin c.count

pub length-contents : (c : Cbuff) → length (contents c) ≡ c.count
length-contents c = length-window (cells c) c.size c.begin c.count

put_queue :
    {c : Cbuff} (x : ℕ)
    → IsValid c
    → let (r, c') = put x c in (r, contents c') ≡ Queue.put c.size x (contents c)
unfolding put Queue.put
put_queue {c} x v = ground (
  arith,
  length-contents c,
  window-set (cells c) c.size x c.count c.begin (wrap (add32 c.begin c.count) c.size),
)

get_queue :
    {c : Cbuff} → IsValid c → let (r, c') = get c in (r, contents c') ≡ Queue.get (contents c)
unfolding get Queue.get
get_queue {c} v = ground (arith, window_of_pos (cells c) c.size c.begin c.count)

-- On a valid buffer the put of cbuff_put returns the result of the bounded queue and leaves its
-- contents, -ENOMEM and no change where the buffer is full, and the buffer stays valid.
pub put_refines :
    {c : Cbuff} (x : ℕ)
    → IsValid c
    → let (r, c') = put x c in ((r, contents c') ≡ Queue.put c.size x (contents c)) × IsValid c'
put_refines x v = (put_queue x v, put-IsValid x v)

-- On a valid buffer the get of cbuff_get returns the byte of the bounded queue and leaves its
-- contents, -ENOMEM and no change where the buffer is empty, and the buffer stays valid.
pub get_refines :
    {c : Cbuff}
    → IsValid c
    → let (r, c') = get c in ((r, contents c') ≡ Queue.get (contents c)) × IsValid c'
get_refines v = (get_queue v, get-IsValid v)
