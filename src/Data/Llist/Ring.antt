-- ===== src/Data/Llist/Ring.antt =====
-- The items of a list in order: a ring of items, linked both ways.
use native.Mathlib.Omega.{arith}
use lambda_os.Prelude.{ℕ, ◌≡◌, ◌≢◌, refl, Option, none, some, List, [], ◌∷◌, ◌++◌, All}
use lambda_os.Data.Llist.{Heap, Llist, set_prev, set_next}

abbrev pub NotIn : ℕ → List ℕ → Type 0
NotIn p xs = All (λ q. q ≢ p) xs

abbrev pub Distinct : List ℕ → Type 0
Distinct [] = Unit
Distinct (x ∷ xs) = NotIn x xs × Distinct xs

abbrev pub Linked : Heap → ℕ → ℕ → Type 0
Linked h a b = ((h a).next ≡ some b) × ((h b).prev ≡ some a)

-- Each item is linked to the next.
abbrev pub Links : Heap → ℕ → List ℕ → Type 0
Links h a [] = Unit
Links h a (x ∷ xs) = Linked h a x × Links h x xs

abbrev pub last_of : ℕ → List ℕ → ℕ
last_of a [] = a
last_of a (x ∷ xs) = last_of x xs

-- The items behind `a` are `xs`, and then comes `a`.
abbrev pub Ring : Heap → ℕ → List ℕ → Type 0
Ring h a xs = Links h a xs × Linked h (last_of a xs) a

-- The list has the items.
abbrev pub HasItems : Llist → List ℕ → Type 0
HasItems l [] = l.list ≡ none
HasItems l (a ∷ xs) = (l.list ≡ some a) × Distinct (a ∷ xs) × Ring l.heap a xs

pub last_of-NotIn : (a : ℕ) (xs : List ℕ) (p : ℕ) → NotIn p (a ∷ xs) → last_of a xs ≢ p
last_of-NotIn a [] p n = n.0
last_of-NotIn a (x ∷ xs) p n = last_of-NotIn x xs p n.1

pub last_of-append :
    (a : ℕ) (xs : List ℕ) (y : ℕ) (ys : List ℕ) → last_of a (xs ++ y ∷ ys) ≡ last_of y ys
last_of-append a [] y ys = refl
last_of-append a (x ∷ xs) y ys = last_of-append x xs y ys

-- A write to an item that the stretch has not, or to the end of it that has no link.
pub Links-set_prev :
    (h : Heap) (a : ℕ) (xs : List ℕ) (p : ℕ) (v : Option ℕ)
    → NotIn p xs
    → Links h a xs
    → Links (set_prev h p v) a xs
Links-set_prev h a [] p v n l = tt
Links-set_prev h a (x ∷ xs) p v n l =
    ((ground (arith, l.0.0), ground (arith, l.0.1, n.0)), Links-set_prev h x xs p v n.1 l.1)

pub Links-set_next :
    (h : Heap) (a : ℕ) (xs : List ℕ) (p : ℕ) (v : Option ℕ)
    → NotIn p (a ∷ xs)
    → Links h a xs
    → Links (set_next h p v) a xs
Links-set_next h a [] p v n l = tt
Links-set_next h a (x ∷ xs) p v n l =
    ((ground (arith, l.0.0, n.0), ground (arith, l.0.1)), Links-set_next h x xs p v n.1 l.1)

pub Links-set_last :
    (h : Heap) (a : ℕ) (xs : List ℕ) (v : Option ℕ)
    → Distinct (a ∷ xs)
    → Links h a xs
    → Links (set_next h (last_of a xs) v) a xs
Links-set_last h a [] v d l = tt
Links-set_last h a (x ∷ xs) v d l =
    let apart = last_of-NotIn x xs a d.0 in
    ((ground (arith, l.0.0, apart), ground (arith, l.0.1)), Links-set_last h x xs v d.1 l.1)

pub Links-append :
    (h : Heap) (a : ℕ) (xs : List ℕ) (y : ℕ) (ys : List ℕ)
    → Links h a xs
    → Linked h (last_of a xs) y
    → Links h y ys
    → Links h a (xs ++ y ∷ ys)
Links-append h a [] y ys l k m = (k, m)
Links-append h a (x ∷ xs) y ys l k m = (l.0, Links-append h x xs y ys l.1 k m)

-- The stretch before an item, the link to it and the stretch behind it.
pub Links-split :
    (h : Heap) (a : ℕ) (xs : List ℕ) (y : ℕ) (ys : List ℕ)
    → Links h a (xs ++ y ∷ ys)
    → Links h a xs × Linked h (last_of a xs) y × Links h y ys
Links-split h a [] y ys l = (tt, l.0, l.1)
Links-split h a (x ∷ xs) y ys l =
    let (before, link, behind) = Links-split h x xs y ys l.1 in ((l.0, before), link, behind)
