-- ===== src/Fs/Stream/Drain.antt =====
-- A read takes the first bytes of a pipe, in order, and counts them.
use lambda_os.Prelude.{
  lt→ltb, ℕ, zero, suc, ◌+◌, ◌%◌, ◌^◌, ◌<◌, ◌≡◌, refl, ap, ap₂, ◌∙◌, true, false, some, List, [],
  ◌∷◌, length, take, drop, All, arith,
}
use lambda_os.Prelude.Word.{neg, sub32, is_nonneg}
use lambda_os.Data.Cbuff.Codes.{enomem}
use lambda_os.Data.Cbuff.{Cbuff, get}
use lambda_os.Data.Cbuff.Queue
use lambda_os.Data.Cbuff.Invariant.{IsValid}
use lambda_os.Data.Cbuff.Refine.{contents, length-contents, get_refines}
use lambda_os.Fs.Stream.{Stream, read_bytes, stream_read}
use lambda_os.Fs.Stream.Fifo.{IsPipe}

-- What a loop of gets of `n` bytes leaves.
record Got (n : ℕ) (c : Cbuff) (out : List ℕ × Cbuff) : Type 0 where
  valid : IsValid out.1
  size : out.1.size ≡ c.size
  taken : out.0 ≡ take n (contents c)
  rest : contents out.1 ≡ drop n (contents c)

size-get : (c : Cbuff) → (get c).1.size ≡ c.size
unfolding get
size-get c = ground arith

-- A get from contents that are known.
get_cons :
    (c : Cbuff) (x : ℕ) (q : List ℕ)
    → IsValid c
    → contents c ≡ x ∷ q
    → ((get c).0 ≡ x) × (contents (get c).1 ≡ q)
unfolding Queue.get
get_cons c x q v e = let r = (get_refines v).0 in ground (arith, r, e)

get_nil :
    (c : Cbuff) → IsValid c → contents c ≡ [] → ((get c).0 ≡ neg enomem) × (contents (get c).1 ≡ [])
unfolding Queue.get
get_nil c v e = let r = (get_refines v).0 in ground (arith, r, e)

read_bytes-Got :
    (n : ℕ) (c : Cbuff) (q : List ℕ)
    → IsValid c
    → contents c ≡ q
    → All (λ x. x < 2 ^ 8) q
    → Got n c (read_bytes n c)
unfolding read_bytes
read_bytes-Got zero c q v e small = record { valid = v; size = refl; taken = refl; rest = refl }
read_bytes-Got (suc n) c [] v e small =
    let (code, bytes) = get_nil c v e in
    let stops : is_nonneg (get c).0 ≡ false = rw code refl in
    rw stops (record {
      valid = (get_refines v).1;
      size = size-get c;
      taken = rw e refl;
      rest = rw e bytes;
    })
read_bytes-Got (suc n) c (x ∷ q) v e small =
    let (code, bytes) = get_cons c x q v e in
    let goes : is_nonneg (get c).0 ≡ true = rw code (lt→ltb x (2 ^ 31) (omega arith)) in
    let r = read_bytes-Got n (get c).1 q (get_refines v).1 bytes small.1 in
    let byte : (get c).0 % 2 ^ 8 ≡ x = omega (arith, code) in
    rw goes (record {
      valid = r.valid;
      size = r.size ∙ size-get c;
      taken = rw e (ap₂ ◌∷◌ byte (r.taken ∙ ap (take n) bytes));
      rest = rw e (r.rest ∙ ap (drop n) bytes);
    })

length-take-drop {ℓ} :
    {A : Type ℓ} (n : ℕ) (q : List A) → length (take n q) + length (drop n q) ≡ length q
length-take-drop zero q = omega arith
length-take-drop (suc n) [] = refl
length-take-drop (suc n) (x ∷ q) = omega (arith, length-take-drop n q)

-- If the buffer of a pipe is valid and holds bytes, and the length of its file is their number, a
-- read gives as many of the first bytes as there are up to the number asked for, returns their
-- number and leaves the others, and a pipe of the same size for which both hold again.
pub stream_read_lem :
    (s : Stream) (n : ℕ)
    → IsPipe s
    → All (λ x. x < 2 ^ 8) (contents s.buff)
    → (s' : Stream) × (stream_read (some s) n
        ≡ (length (take n (contents s.buff)), take n (contents s.buff), some s'))
      × (contents s'.buff ≡ drop n (contents s.buff))
      × (s'.buff.size ≡ s.buff.size)
      × IsPipe s'
unfolding stream_read
stream_read_lem s n p small =
    let g = read_bytes-Got n s.buff (contents s.buff) p.valid refl small in
    let out = read_bytes n s.buff in
    let s' : Stream = record { buff = out.1; length = sub32 s.length (length out.0) } in
    let left : length out.0 + out.1.count ≡ s.buff.count = omega (
      arith,
      ap length g.taken,
      ap length g.rest,
      length-take-drop n (contents s.buff),
      length-contents s.buff,
      length-contents out.1,
    ) in
    (
      s',
      ap (λ xs. (length xs, xs, some s')) g.taken,
      g.rest,
      g.size,
      record {
        valid = g.valid;
        counted = omega (arith, left, p.valid.count_in, p.valid.small, p.counted);
      },
    )
