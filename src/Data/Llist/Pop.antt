-- ===== src/Data/Llist/Pop.antt =====
-- Taking the last item off a list.
use native.Mathlib.Omega.{arith}
use lambda_os.Prelude.{ℕ, ◌≡◌, refl, none, some, List, [], ◌∷◌, ◌++◌}
use lambda_os.Prelude.Outcome.{ok}
use lambda_os.Data.Llist.{Llist, set_prev, set_next, llist_pop}
use lambda_os.Data.Llist.Ring.{
  Linked, last_of, HasItems, last_of-append, Links-set_prev, Links-set_last, Links-split,
}
use lambda_os.Data.Llist.Remove.{Distinct-split}

-- If a list has some items and then a last one, llist_pop_unlocked returns the last one and leaves
-- the others in order.
pub llist_pop-HasItems :
    (l : Llist) (xs : List ℕ) (y : ℕ)
    → HasItems l (xs ++ y ∷ [])
    → (l' : Llist) × (llist_pop l ≡ ok (some y, l')) × HasItems l' xs
unfolding llist_pop
llist_pop-HasItems l [] y has =
    let (first, d, r) = has in (record l { list = none }, ground (arith, first, r.1.1), refl)
llist_pop-HasItems l (a ∷ ys) y has =
    let (first, d, r) = has in
    let (dy, _, apart) = Distinct-split (a ∷ ys) (y ∷ []) d in
    let (before, link, _) = Links-split l.heap a ys y [] r.0 in
    let closing : Linked l.heap y a = rw (← last_of-append a ys y []) r.1 in
    let h1 = set_prev l.heap a (l.heap y).prev in
    let links =
      Links-set_last h1 a ys (some a) dy
        (Links-set_prev l.heap a ys a (l.heap y).prev dy.0 before) in
    (
      record l { heap = set_next h1 (last_of a ys) (some a) },
      ground (arith, first, closing.1, link.1, apart.0.0),
      (first, dy, (links, (ground arith, ground (arith, link.1)))),
    )
