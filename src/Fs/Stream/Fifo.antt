-- ===== src/Fs/Stream/Fifo.antt =====
-- A write to a pipe appends as much as fits, in order, and counts it.
use mathlib.Core.List.{append-nil, append_assoc}
use lambda_os.Prelude.{
  ℕ, suc, ◌+◌, ◌-◌, ◌^◌, ◌<◌, ◌≤◌, ◌≡◌, refl, sym, ap, ap₂, ◌∙◌, true, false, some, List, [], ◌∷◌,
  ◌++◌, leb, length, length-append, take, inl, inr, Bool-cases, arith,
}
use lambda_os.Prelude.Word.{neg, add32, is_nonneg}
use lambda_os.Data.Cbuff.Codes.{enomem}
use lambda_os.Data.Cbuff.Transfer.{size-put, put-ok}
use lambda_os.Data.Cbuff.{Cbuff, put}
use lambda_os.Data.Cbuff.Queue
use lambda_os.Data.Cbuff.Invariant.{IsValid}
use lambda_os.Data.Cbuff.Refine.{contents, length-contents, put_refines}
use lambda_os.Fs.Stream.{Stream, write_bytes, stream_write, stream_create}

-- What a loop of puts of the bytes `xs` leaves.
record Wrote (c : Cbuff) (xs : List ℕ) (out : ℕ × Cbuff) : Type 0 where
  valid : IsValid out.1
  size : out.1.size ≡ c.size
  bytes : contents out.1 ≡ contents c ++ take (c.size - c.count) xs
  number : out.0 ≡ length (take (c.size - c.count) xs)

put_full :
    (c : Cbuff) (x : ℕ)
    → IsValid c
    → c.size ≤ c.count
    → ((put x c).0 ≡ neg enomem) × (contents (put x c).1 ≡ contents c)
unfolding Queue.put
put_full c x v full = ground (arith, put_refines x v, length-contents c)

write_bytes-Wrote : (xs : List ℕ) (c : Cbuff) → IsValid c → Wrote c xs (write_bytes xs c)
unfolding write_bytes
write_bytes-Wrote [] c v = elim (Bool-cases (leb c.size c.count)) [
  | inl full ↦
      let none_left : c.size - c.count ≡ 0 = ground (arith, full) in
      record {
        valid = v;
        size = refl;
        bytes = rw (none_left) (sym (append-nil (contents c)));
        number = rw none_left refl;
      }
  | inr room ↦
      let some_left : c.size - c.count ≡ suc (c.size - suc c.count) = ground (arith, room) in
      record {
        valid = v;
        size = refl;
        bytes = rw some_left (sym (append-nil (contents c)));
        number = rw some_left refl;
      }
]
write_bytes-Wrote (x ∷ xs) c v = elim (Bool-cases (leb c.size c.count)) [
  | inl full ↦
      let none_left : c.size - c.count ≡ 0 = ground (arith, full) in
      let (code, same) = put_full c x v (ground (arith, full)) in
      let stops : is_nonneg (put x c).0 ≡ false = rw code refl in
      rw stops (record {
        valid = (put_refines x v).1;
        size = size-put c x;
        bytes = rw none_left (same ∙ sym (append-nil (contents c)));
        number = rw none_left refl;
      })
  | inr room ↦
      let some_left : c.size - c.count ≡ suc (c.size - suc c.count) = ground (arith, room) in
      let (code, bytes, count) = put-ok x v (ground (arith, room)) in
      let goes : is_nonneg (put x c).0 ≡ true = rw code refl in
      let left : (put x c).1.size - (put x c).1.count ≡ c.size - suc c.count =
        ap₂ ◌-◌ (size-put c x) count in
      let rest = write_bytes-Wrote xs (put x c).1 (put_refines x v).1 in
      rw goes (record {
        valid = rest.valid;
        size = rest.size ∙ size-put c x;
        bytes = rw some_left (
            rest.bytes
            ∙ ap₂ ◌++◌ bytes (ap (λ n. take n xs) left)
            ∙ append_assoc (contents c) (x ∷ []) (take (c.size - suc c.count) xs));
        number = rw some_left (omega (arith, rest.number, ap (λ n. length (take n xs)) left));
      })
]

-- The file's length is the number of bytes in its buffer.
pub record IsPipe (s : Stream) : Type 0 where
  pub valid : IsValid s.buff
  pub counted : s.length ≡ s.buff.count

-- If the buffer of a pipe is valid and the length of its file is the number of bytes in it, a
-- write appends as many of the bytes as fit in order, returns their number, and leaves a pipe of
-- the same size for which both hold again.
pub stream_write_lem :
    (s : Stream) (xs : List ℕ)
    → IsPipe s
    → let taken = take (s.buff.size - s.buff.count) xs in
      (s' : Stream) × (stream_write (some s) xs ≡ (length taken, some s'))
      × (contents s'.buff ≡ contents s.buff ++ taken)
      × (s'.buff.size ≡ s.buff.size)
      × IsPipe s'
unfolding stream_write
stream_write_lem s xs p =
    let w = write_bytes-Wrote xs s.buff p.valid in
    let s' : Stream = record {
      buff = (write_bytes xs s.buff).1;
      length = add32 s.length (write_bytes xs s.buff).0;
    } in
    let held : (write_bytes xs s.buff).1.count ≡ s.buff.count + (write_bytes xs s.buff).0 = omega (
      arith,
      ap length w.bytes,
      length-append (contents s.buff) (take (s.buff.size - s.buff.count) xs),
      length-contents s.buff,
      length-contents (write_bytes xs s.buff).1,
      w.number,
    ) in
    (
      s',
      ap (λ n. (n, some s')) w.number,
      w.bytes,
      w.size,
      record {
        valid = w.valid;
        counted = omega (arith, held, w.valid.count_in, w.valid.small, p.counted);
      },
    )

-- A new pipe is empty and keeps its length, where kmalloc gives the memory asked for.
pub stream_create-IsPipe :
    (cells : List ℕ) (len : ℕ)
    → 0 < len
    → len < 2 ^ 31
    → len ≤ length cells
    → (s : Stream) × (stream_create cells len ≡ some s)
      × (contents s.buff ≡ [])
      × (s.buff.size ≡ len)
      × IsPipe s
unfolding stream_create
stream_create-IsPipe cells len some_room small enough =
    let s : Stream = record {
      buff = record { begin = 0; count = 0; size = len; buff = some cells };
      length = 0;
    } in
    (
      s,
      ground arith,
      refl,
      refl,
      record {
        valid = record {
          storage = enough;
          small = omega arith;
          begin_in = some_room;
          count_in = omega arith;
        };
        counted = refl;
      },
    )
