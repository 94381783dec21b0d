-- ===== src/Data/Llist/Count.antt =====
-- Counting the items of a list, and finding one by its number.
use native.Mathlib.Omega.{arith}
use lambda_os.Prelude.{
  ℕ, zero, suc, ◌+◌, ◌^◌, ◌<◌, ◌≤◌, ◌≡◌, refl, some, List, [], ◌∷◌, length, get_elem?,
}
use lambda_os.Prelude.Word.{add32}
use lambda_os.Prelude.Outcome.{ok}
use lambda_os.Data.Llist.{Heap, Llist, count_loop, llist_count, get_loop, llist_get}
use lambda_os.Data.Llist.Ring.{NotIn, Links, last_of, HasItems}

count_loop_lem :
    (fuel : ℕ) (h : Heap) (first x : ℕ) (xs : List ℕ) (count : ℕ)
    → Links h x xs
    → NotIn first xs
    → (h (last_of x xs)).next ≡ some first
    → length xs < fuel
    → suc (length xs) + count < 2 ^ 32
    → count_loop fuel h first x count ≡ some (ok (suc (length xs) + count))
unfolding count_loop
count_loop_lem zero h first x xs count l n back f small = absurd (omega arith)
count_loop_lem (suc fuel) h first x [] count l n back f small = ground (arith, back)
count_loop_lem (suc fuel) h first x (y ∷ xs) count l n back f small =
    let next : add32 count 1 ≡ count + 1 = omega arith in
    ground (
      arith,
      l.0.0,
      n.0,
      next,
      count_loop_lem fuel h first y xs (count + 1) l.1 n.1 back (omega arith) (omega arith),
    )

-- If a list has fewer than 2 ^ 32 items and the fuel is no less than their number, llist_count
-- returns their number.
pub llist_count_lem :
    (l : Llist) (items : List ℕ) (fuel : ℕ)
    → HasItems l items
    → length items ≤ fuel
    → length items < 2 ^ 32
    → llist_count fuel l ≡ some (ok (length items))
unfolding llist_count
llist_count_lem l [] fuel has f small = rw has refl
llist_count_lem l (a ∷ xs) fuel has f small =
    let (first, d, r) = has in
    ground (arith, first, count_loop_lem fuel l.heap a a xs 0 r.0 d.0 r.1.0 f (omega arith))

get_loop_lem :
    (fuel : ℕ) (h : Heap) (first : ℕ) (i x : ℕ) (xs : List ℕ) (count : ℕ)
    → Links h x xs
    → NotIn first xs
    → (h (last_of x xs)).next ≡ some first
    → length xs < fuel
    → suc (length xs) + count < 2 ^ 32
    → get_loop fuel h first (count + i) x count ≡ some (ok (get_elem? (x ∷ xs) i))
unfolding get_loop
get_loop_lem zero h first i x xs count l n back f small = absurd (omega arith)
get_loop_lem (suc fuel) h first zero x xs count l n back f small = ground arith
get_loop_lem (suc fuel) h first (suc i) x [] count l n back f small = ground (arith, back)
get_loop_lem (suc fuel) h first (suc i) x (y ∷ xs) count l n back f small =
    let next : add32 count 1 ≡ count + 1 = omega arith in
    let same : count + suc i ≡ (count + 1) + i = omega arith in
    ground (
      arith,
      l.0.0,
      n.0,
      next,
      same,
      get_loop_lem fuel h first i y xs (count + 1) l.1 n.1 back (omega arith) (omega arith),
    )

-- If a list has fewer than 2 ^ 32 items and the fuel is no less than their number, llist_get returns
-- the item with the number, and NULL past the end.
pub llist_get_lem :
    (l : Llist) (items : List ℕ) (fuel i : ℕ)
    → HasItems l items
    → length items ≤ fuel
    → length items < 2 ^ 32
    → llist_get fuel l i ≡ some (ok (get_elem? items i))
unfolding llist_get
llist_get_lem l [] fuel i has f small = rw has refl
llist_get_lem l (a ∷ xs) fuel i has f small =
    let (first, d, r) = has in
    ground (arith, first, get_loop_lem fuel l.heap a i a xs 0 r.0 d.0 r.1.0 f (omega arith))
