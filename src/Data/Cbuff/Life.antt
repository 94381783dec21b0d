-- ===== src/Data/Cbuff/Life.antt =====
-- A buffer's life: what `cbuff_allocate` gives, and that what is written is what is read.
use lambda_os.Prelude.{
  ◌≢◌, ℕ, zero, suc, ◌+◌, ◌-◌, ◌^◌, ◌<◌, ◌≤◌, ◌≡◌, refl, some, List, [], ◌∷◌, ◌++◌, arith, length,
  length-append, take, drop, All,
}
use lambda_os.Prelude.Word.{neg}
use lambda_os.Data.Cbuff.{Cbuff, allocate, write, read, free, put, get}
use lambda_os.Data.Cbuff.Codes.{einval}
use lambda_os.Data.Cbuff.Queue
use lambda_os.Data.Cbuff.Invariant.{IsValid}
use lambda_os.Data.Cbuff.Refine.{contents, length-contents}
use lambda_os.Data.Cbuff.Transfer.{IsByte, write_refines, read_refines}

-- If the structure that cbuff_allocate is given has a count of 0, the size is above 0 and at most
-- 2 ^ 31, and kmalloc returns a block of that size, cbuff_allocate returns 0 and the new buffer is
-- valid and empty.
pub allocate_empty :
    (b : List ℕ) (size : ℕ) (c : Cbuff)
    → 0 < size
    → size ≤ 2 ^ 31
    → length b ≡ size
    → c.count ≡ 0
    → ((allocate (some b) size c).0 ≡ 0)
      × IsValid (allocate (some b) size c).1
      × (contents (allocate (some b) size c).1 ≡ [])
unfolding allocate
allocate_empty b size c pos small room empty = ground (arith, empty)

-- If the structure that cbuff_allocate is given has a count above 0, the size is above 0 and
-- kmalloc succeeds, cbuff_allocate returns 0 and the new buffer is not empty.
pub allocate_stale :
    (b : List ℕ) (size : ℕ) (c : Cbuff)
    → 0 < size
    → 0 < c.count
    → ((allocate (some b) size c).0 ≡ 0) × (contents (allocate (some b) size c).1 ≢ [])
unfolding allocate
allocate_stale b size c pos stale =
    let n = length-contents (allocate (some b) size c).1 in ground (arith, n)

take_all : (xs : List ℕ) (n : ℕ) → length xs ≡ n → (take n xs ≡ xs) × (drop n xs ≡ [])
take_all [] zero h = (refl, refl)
take_all [] (suc n) h = (refl, refl)
take_all (x ∷ xs) zero h = absurd (omega arith)
take_all (x ∷ xs) (suc n) h = ground (arith, take_all xs n (omega arith))

-- If bytes that fit are written to a valid buffer of bytes below 256 and then all that it holds is
-- read, both calls return 0, what is read is the old contents and then the bytes written, and the
-- buffer is empty.
pub read-write :
    {c : Cbuff} (xs : List ℕ)
    → IsValid c
    → length xs ≤ c.size - c.count
    → All IsByte (contents c ++ xs)
    → let (r, c') = write xs c in
      let (r', out, c'') = read (c.count + length xs) c' in
      (r ≡ 0) × (r' ≡ 0) × (out ≡ contents c ++ xs) × (contents c'' ≡ [])
unfolding Queue.write Queue.read
read-write {c} xs v room bytes =
    let (wrote, valid) = write_refines xs v in
    let ok : ((write xs c).0 ≡ 0) × (contents (write xs c).1 ≡ contents c ++ xs) =
      ground (arith, wrote, length-contents c) in
    let all =
      take_all (contents c ++ xs) (c.count + length xs)
        (omega (arith, length-append (contents c) xs, length-contents c)) in
    let (got, _) = read_refines (c.count + length xs) valid (rw ok.1 bytes) in
    ground (arith, ok, got, all, length-append (contents c) xs, length-contents c)

-- A freed buffer refuses each operation with -EINVAL.
pub freed_refuses :
    (c : Cbuff) (x : ℕ) (xs : List ℕ) (n : ℕ)
    → ((put x (free c)).0 ≡ neg einval)
      × ((get (free c)).0 ≡ neg einval)
      × ((write xs (free c)).0 ≡ neg einval)
      × ((read n (free c)).0 ≡ neg einval)
unfolding put get write read free
freed_refuses c x xs n = ground arith
