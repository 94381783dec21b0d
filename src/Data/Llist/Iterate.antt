-- ===== src/Data/Llist/Iterate.antt =====
-- Going over a list with an iterator, and the position of an item.
use native.Mathlib.Omega.{arith}
use lambda_os.Prelude.{
  ◌≢◌, none, ℕ, zero, suc, ◌+◌, ◌^◌, ◌<◌, ◌≡◌, ◌==◌, if◌then◌else◌, some, List, [], ◌∷◌, length,
}
use lambda_os.Prelude.Word.{add32, neg}
use lambda_os.Prelude.Outcome.{ok}
use lambda_os.Data.Llist.{
  Iterator, einval, Heap, Llist, llist_iterator_init, llist_iterate, iterate_all, position_loop,
  llist_get_position,
}
use lambda_os.Data.Llist.Ring.{NotIn, Links, last_of, HasItems}

abbrev pub data_of : Heap → List ℕ → List ℕ
data_of h [] = []
data_of h (x ∷ xs) = (h x).data_ptr ∷ data_of h xs

-- From the item `x` on.
iterate_all_lem :
    (fuel : ℕ) (h : Heap) (a x : ℕ) (xs : List ℕ)
    → Links h x xs
    → NotIn a xs
    → (h (last_of x xs)).next ≡ some a
    → length xs < fuel
    → iterate_all fuel h (record { first = some a; curr = some x }) ≡ some (ok (data_of h xs))
unfolding iterate_all llist_iterate
iterate_all_lem zero h a x xs l n back f = absurd (omega arith)
iterate_all_lem (suc fuel) h a x [] l n back f = ground (arith, back)
iterate_all_lem (suc fuel) h a x (y ∷ xs) l n back f =
    ground (arith, l.0.0, n.0, iterate_all_lem fuel h a y xs l.1 n.1 back (omega arith))

-- With fuel above the number of items, a loop over llist_iterate from a new iterator is given the
-- data of each item of the list in order, and then ends.
pub iterate_all-HasItems :
    (l : Llist) (items : List ℕ) (fuel : ℕ)
    → HasItems l items
    → length items < fuel
    → iterate_all fuel l.heap (llist_iterator_init l) ≡ some (ok (data_of l.heap items))
unfolding iterate_all llist_iterate llist_iterator_init
iterate_all-HasItems l items zero has f = absurd (omega arith)
iterate_all-HasItems l [] (suc fuel) has f = ground (arith, has)
iterate_all-HasItems l (a ∷ xs) (suc fuel) has f =
    let (first, d, r) = has in
    ground (arith, first, iterate_all_lem fuel l.heap a a xs r.0 d.0 r.1.0 (omega arith))

-- The position of an item, counted from `i`.
abbrev pub position_of : ℕ → List ℕ → ℕ → ℕ
position_of item [] i = neg einval
position_of item (x ∷ xs) i = if x == item then i else position_of item xs (suc i)

position_loop_lem :
    (fuel : ℕ) (h : Heap) (first item x : ℕ) (xs : List ℕ) (i : ℕ)
    → Links h x xs
    → NotIn first xs
    → (h (last_of x xs)).next ≡ some first
    → length xs < fuel
    → suc (length xs) + i < 2 ^ 32
    → position_loop fuel h first item x i ≡ some (ok (position_of item (x ∷ xs) i))
unfolding position_loop
position_loop_lem zero h first item x xs i l n back f small = absurd (omega arith)
position_loop_lem (suc fuel) h first item x [] i l n back f small = ground (arith, back)
position_loop_lem (suc fuel) h first item x (y ∷ xs) i l n back f small =
    let next : add32 i 1 ≡ suc i = omega arith in
    ground (
      arith,
      l.0.0,
      n.0,
      next,
      position_loop_lem fuel h first item y xs (suc i) l.1 n.1 back (omega arith) (omega arith),
    )

-- If a list has at least one item and fewer than 2 ^ 32, and the fuel is above the number of the
-- others, llist_get_position returns the number of the item in the list, or -EINVAL.
pub llist_get_position_lem :
    (l : Llist) (a : ℕ) (xs : List ℕ) (item fuel : ℕ)
    → HasItems l (a ∷ xs)
    → length xs < fuel
    → suc (length xs) < 2 ^ 32
    → llist_get_position fuel l item ≡ some (ok (position_of item (a ∷ xs) 0))
unfolding llist_get_position
llist_get_position_lem l a xs item fuel has f small =
    let (first, d, r) = has in
    ground (arith, first, position_loop_lem fuel l.heap a item a xs 0 r.0 d.0 r.1.0 f (omega arith))

-- An iterator at the item `y`, in a walk from `f`.
abbrev pub walking : ℕ → ℕ → Iterator
walking f y = record { first = some f; curr = some y }

pub iterate_on :
    (h : Heap) (f y x : ℕ)
    → (h y).next ≡ some x
    → x ≢ f
    → llist_iterate h (walking f y) ≡ ok (some (h x).data_ptr, walking f x)
unfolding llist_iterate
iterate_on h f y x next ne = ground (arith, next, ne)

pub iterate_end :
    (h : Heap) (f y : ℕ)
    → (h y).next ≡ some f
    → llist_iterate h (walking f y) ≡ ok (none, walking f f)
unfolding llist_iterate
iterate_end h f y next = ground (arith, next)
