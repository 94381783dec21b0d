-- ===== src/Data/Llist/Remove.antt =====
-- Removing an item: behind the first one the list loses that item, and the first is not removed.
use native.Mathlib.Omega.{arith}
use lambda_os.Prelude.{append-nil, ℕ, ◌≡◌, ◌≢◌, sym, ap, none, some, List, [], ◌∷◌, ◌++◌, All}
use lambda_os.Prelude.Outcome.{ok}
use lambda_os.Data.Llist.{Heap, Llist, set_prev, set_next, detach, llist_remove}
use lambda_os.Data.Llist.Ring.{
  NotIn, Distinct, Linked, Links, last_of, Ring, HasItems, last_of-NotIn, last_of-append,
  Links-set_prev, Links-set_next, Links-set_last, Links-append, Links-split,
}

-- Where no item of the first list is in the second.
abbrev AllApart : List ℕ → List ℕ → Type 0
AllApart xs ys = All (λ x. NotIn x ys) xs

NotIn-split : (p : ℕ) (xs ys : List ℕ) → NotIn p (xs ++ ys) → NotIn p xs × NotIn p ys
NotIn-split p [] ys n = (tt, n)
NotIn-split p (x ∷ xs) ys n = let (l, r) = NotIn-split p xs ys n.1 in ((n.0, l), r)

NotIn-both : (p : ℕ) (xs ys : List ℕ) → NotIn p xs → NotIn p ys → NotIn p (xs ++ ys)
NotIn-both p [] ys l r = r
NotIn-both p (x ∷ xs) ys l r = (l.0, NotIn-both p xs ys l.1 r)

pub Distinct-split :
    (xs ys : List ℕ) → Distinct (xs ++ ys) → Distinct xs × Distinct ys × AllApart xs ys
Distinct-split [] ys d = (tt, d, tt)
Distinct-split (x ∷ xs) ys d =
    let (l, r) = NotIn-split x xs ys d.0 in
    let (dx, dy, apart) = Distinct-split xs ys d.1 in ((l, dx), dy, (r, apart))

Distinct-both : (xs ys : List ℕ) → Distinct xs → Distinct ys → AllApart xs ys → Distinct (xs ++ ys)
Distinct-both [] ys d e a = e
Distinct-both (x ∷ xs) ys d e a = (NotIn-both x xs ys d.0 a.0, Distinct-both xs ys d.1 e a.1)

last_of-All : (P : ℕ → Type 0) (a : ℕ) (xs : List ℕ) → All P (a ∷ xs) → P (last_of a xs)
last_of-All P a [] p = p.0
last_of-All P a (x ∷ xs) p = last_of-All P x xs p.1

AllApart-first :
    (xs : List ℕ) (y : ℕ) (ys : List ℕ) → AllApart xs (y ∷ ys) → NotIn y xs × AllApart xs ys
AllApart-first [] y ys a = (tt, tt)
AllApart-first (x ∷ xs) y ys a =
    let (n, r) = AllApart-first xs y ys a.1 in (((λ e. a.0.0 (sym e)), n), (a.0.1, r))

-- The heap without the item between `p` and `n`.
abbrev bypass : Heap → ℕ → ℕ → ℕ → Heap
bypass h p n item = detach (set_prev (set_next h p (some n)) n (some p)) item

-- A stretch that a bypass leaves alone, and one that ends where it begins.
Links-bypass :
    (h : Heap) (a : ℕ) (xs : List ℕ) (p n item : ℕ)
    → NotIn n xs
    → NotIn item (a ∷ xs)
    → Links (set_next h p (some n)) a xs
    → Links (bypass h p n item) a xs
Links-bypass h a xs p n item apart gone l =
    let h1 = set_next h p (some n) in
    let h2 = set_prev h1 n (some p) in
    Links-set_prev (set_next h2 item none) a xs item none gone.1
      (Links-set_next h2 a xs item none gone (Links-set_prev h1 a xs n (some p) apart l))

bypass-Ring :
    (h : Heap) (a : ℕ) (ys : List ℕ) (item : ℕ) (zs : List ℕ)
    → Distinct (a ∷ ys ++ item ∷ zs)
    → Ring h a (ys ++ item ∷ zs)
    → (n : ℕ) × ((h item).next ≡ some n) × Ring (bypass h (last_of a ys) n item) a (ys ++ zs)
bypass-Ring h a ys item [] d r =
    let (dy, dz, ap) = Distinct-split (a ∷ ys) (item ∷ []) d in
    let (gone, _) = AllApart-first (a ∷ ys) item [] ap in
    let (before, link, behind) = Links-split h a ys item [] r.0 in
    let closing : Linked h item a = rw (← last_of-append a ys item []) r.1 in
    let apart = last_of-NotIn a ys item gone in
    (
      a,
      closing.0,
      rw append-nil (
        Links-bypass h a ys (last_of a ys) a item dy.0 gone
            (Links-set_last h a ys (some a) dy before),
        (ground (arith, apart), ground (arith, gone.0)),
      ),
    )
bypass-Ring h a ys item (z ∷ zs) d r =
    let p = last_of a ys in
    let (dy, dz, ap) = Distinct-split (a ∷ ys) (item ∷ z ∷ zs) d in
    let (gone, apz) = AllApart-first (a ∷ ys) item (z ∷ zs) ap in
    let (clear, _) = AllApart-first (a ∷ ys) z zs apz in
    let (before, link, behind) = Links-split h a ys item (z ∷ zs) r.0 in
    let closing : Linked h (last_of z zs) a = rw (← last_of-append a ys item (z ∷ zs)) r.1 in
    let p_apart : NotIn p (z ∷ zs) = last_of-All (λ x. NotIn x (z ∷ zs)) a ys apz in
    let upper =
      Links-bypass h a ys p z item clear.1 gone (Links-set_last h a ys (some z) dy before) in
    let lower =
      Links-bypass h z zs p z item dz.1.0 dz.0
        (Links-set_next h z zs p (some z) p_apart behind.1) in
    let end_apart = last_of-NotIn z zs item dz.0 in
    let end_p = last_of-NotIn z zs p p_apart in
    let p_item = last_of-NotIn a ys item gone in
    (
      z,
      behind.0.0,
      (
        Links-append (bypass h p z item) a ys z zs upper
            (ground (arith, p_item), ground (arith, dz.0.0)) lower,
        rw last_of-append (
          ground (arith, closing.0, end_apart, end_p),
          ground (arith, closing.1, clear.0, gone.0),
        ),
      ),
    )

-- If an item of a list is not its first one, llist_remove returns and the list has its other items
-- in order.
pub llist_remove-HasItems :
    (l : Llist) (a : ℕ) (ys : List ℕ) (item : ℕ) (zs : List ℕ)
    → HasItems l (a ∷ ys ++ item ∷ zs)
    → (l' : Llist) × (llist_remove l item ≡ ok l') × HasItems l' (a ∷ ys ++ zs)
unfolding llist_remove
llist_remove-HasItems l a ys item zs has =
    let (first, d, r) = has in
    let (n, next, ring) = bypass-Ring l.heap a ys item zs d r in
    let (dy, dz, ap) = Distinct-split (a ∷ ys) (item ∷ zs) d in
    let (gone, apz) = AllApart-first (a ∷ ys) item zs ap in
    let apart = last_of-NotIn a ys item gone in
    let (_, link, _) = Links-split l.heap a ys item zs r.0 in
    (
      record l { heap = bypass l.heap (last_of a ys) n item },
      ground (arith, first, gone.0, next, link.1, apart),
      (first, Distinct-both (a ∷ ys) zs dy dz.1 apz, ring),
    )

-- If a list has two items or more, llist_remove of the first returns a list that does not begin
-- with the second.
pub llist_remove_first :
    (l : Llist) (a b : ℕ) (xs : List ℕ)
    → HasItems l (a ∷ b ∷ xs)
    → (l' : Llist) × (llist_remove l a ≡ ok l') × (l'.list ≢ some b)
unfolding llist_remove
llist_remove_first l a b [] has =
    let (first, d, r) = has in
    (record { list = none; heap = detach l.heap a }, ground (arith, first, r.0.0.0, r.1.1), cc)
llist_remove_first l a b (c ∷ xs) has =
    let (first, d, r) = has in
    let z = last_of c xs in
    let z_b : z ≢ b = last_of-NotIn c xs b d.1.0 in
    let z_a : z ≢ a = last_of-NotIn c xs a d.0.1 in
    (
      record l { heap = bypass l.heap z b a },
      ground (arith, first, r.0.0.0, r.1.1, z_b, z_a),
      λ e. d.0.0 (ground (arith, first, e)),
    )
