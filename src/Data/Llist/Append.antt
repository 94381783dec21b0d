-- ===== src/Data/Llist/Append.antt =====
-- Adding an item at the end of a list.
use native.Mathlib.Omega.{arith}
use lambda_os.Prelude.{ℕ, ◌≡◌, ◌≢◌, refl, some, List, [], ◌∷◌, ◌++◌}
use lambda_os.Prelude.Outcome.{ok}
use lambda_os.Data.Llist.{Heap, Llist, set_prev, set_next, append_heap, llist_append}
use lambda_os.Data.Llist.Ring.{
  NotIn, Distinct, last_of, Ring, HasItems, last_of-NotIn, last_of-append, Links-set_prev,
  Links-set_next, Links-set_last, Links-append,
}

pub NotIn-append : (p : ℕ) (xs : List ℕ) (y : ℕ) → NotIn p xs → y ≢ p → NotIn p (xs ++ y ∷ [])
NotIn-append p [] y n m = (m, tt)
NotIn-append p (x ∷ xs) y n m = (n.0, NotIn-append p xs y n.1 m)

Distinct-append : (xs : List ℕ) (y : ℕ) → Distinct xs → NotIn y xs → Distinct (xs ++ y ∷ [])
Distinct-append [] y d n = (tt, tt)
Distinct-append (x ∷ xs) y d n =
    (NotIn-append x xs y d.0 (λ e. n.0 (omega (arith, e))), Distinct-append xs y d.1 n.1)

append_heap-Ring :
    (h : Heap) (a : ℕ) (xs : List ℕ) (item : ℕ)
    → Distinct (a ∷ xs)
    → Ring h a xs
    → NotIn item (a ∷ xs)
    → Ring (append_heap h a (last_of a xs) item) a (xs ++ item ∷ [])
append_heap-Ring h a xs item d r n =
    let h1 = set_next h (last_of a xs) (some item) in
    let h2 = set_prev h1 item (h1 a).prev in
    let h3 = set_prev h2 a (some item) in
    let apart = last_of-NotIn a xs item n in
    let links = Links-set_next h3 a xs item (some a) n (
      Links-set_prev h2 a xs a (some item) d.0
        (Links-set_prev h1 a xs item (h1 a).prev n.1 (Links-set_last h a xs (some item) d r.0))) in
    (
      Links-append (append_heap h a (last_of a xs) item) a xs item [] links
          (ground (arith, apart), ground (arith, r.1.1, n.0)) tt,
      rw last_of-append (ground (arith), ground (arith, n.0)),
    )

-- If a list has some distinct items, linked as a ring both ways, and a new item is not among them,
-- llist_append returns, and the list has these items and then the new one.
pub llist_append-HasItems :
    (l : Llist) (items : List ℕ) (item : ℕ)
    → HasItems l items
    → NotIn item items
    → (l' : Llist) × (llist_append l item ≡ ok l') × HasItems l' (items ++ item ∷ [])
unfolding llist_append
llist_append-HasItems l [] item has n = (
  record { list = some item; heap = set_prev (set_next l.heap item (some item)) item (some item) },
  rw has refl,
  (refl, (tt, tt), (tt, (ground arith, ground arith))),
)
llist_append-HasItems l (a ∷ xs) item has n =
    let (first, d, r) = has in
    (
      record l { heap = append_heap l.heap a (last_of a xs) item },
      ground (arith, first, r.1.1),
      (first, Distinct-append (a ∷ xs) item d n, append_heap-Ring l.heap a xs item d r n),
    )
