-- ===== src/Fs/Stream.antt =====
-- The pipes of kernel/src/fs/stream.c, over the circular buffer of Data.Cbuff. Of the file there is what
-- reading and writing use: its buffer and its length.
pub mod Fifo
pub mod Drain
use lambda_os.Prelude.{
  ℕ, zero, suc, ◌+◌, ◌%◌, ◌^◌, Bool, true, false, not, ◌||◌, Option, none, some, List, [], ◌∷◌,
  ◌==◌, ltb, if◌then◌else◌, length,
}
use lambda_os.Prelude.Word.{neg, add32, sub32, is_nonneg}
use lambda_os.Data.Cbuff.Codes.{einval}
use lambda_os.Data.Cbuff.{Cbuff, put, get}

-- The buffer behind the file's `info`, and the length of the file.
pub record Stream : Type 0 where
  pub buff : Cbuff
  pub length : ℕ

-- `stream_create`, up to the flags and the entry in the tree; `cells` is the memory that kmalloc
-- returns for the bytes of the buffer.
pub stream_create : List ℕ → ℕ → Option Stream
stream_create cells len =
    if not (is_nonneg len) || len == 0
    then none
    else some (record {
      buff = record { begin = 0; count = 0; size = len; buff = some cells };
      length = 0;
    })

-- The loop of `_read` with `n` bytes to go: the bytes, and the buffer.
pub read_bytes : ℕ → Cbuff → List ℕ × Cbuff
read_bytes zero c = ([], c)
read_bytes (suc n) c =
    let (ret, c') = get c in
    let (out, c'') = read_bytes n c' in if is_nonneg ret then (ret % 2 ^ 8 ∷ out, c'') else ([], c')

-- The loop of `_write`: how many bytes went into the buffer.
pub write_bytes : List ℕ → Cbuff → ℕ × Cbuff
write_bytes [] c = (0, c)
write_bytes (x ∷ xs) c =
    let (ret, c') = put x c in
    let (count, c'') = write_bytes xs c' in if is_nonneg ret then (count + 1, c'') else (0, c')

-- `_read` and `_write`; `none` is a handle with no file, or a file with no buffer.
pub stream_read : Option Stream → ℕ → ℕ × List ℕ × Option Stream
unfolding read_bytes
stream_read none sz = (neg einval, [], none)
stream_read (some s) sz =
    let (out, c) = read_bytes sz s.buff in
    (length out, out, some (record { buff = c; length = sub32 s.length (length out) }))

pub stream_write : Option Stream → List ℕ → ℕ × Option Stream
unfolding write_bytes
stream_write none xs = (neg einval, none)
stream_write (some s) xs =
    let (count, c) = write_bytes xs s.buff in
    (count, some (record { buff = c; length = add32 s.length count }))
