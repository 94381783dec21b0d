-- ===== src/Data/Llist.antt =====
-- The linked list of kernel/src/data/llist.c on a heap of items. A pointer to an item is its address,
-- and NULL is `none`. A list and an item are never NULL here but where a function says so; the locked
-- functions are one step. A loop runs on fuel, with `none` for out of fuel.
pub mod Ring
pub mod Append
pub mod Remove
pub mod Count
pub mod Iterate
pub mod Pop
mod Tests
use lambda_os.Prelude.{
  ℕ, zero, suc, ◌+◌, ◌==◌, if◌then◌else◌, List, [], ◌∷◌, Bool, true, false, ◌&&◌, Option, none,
  some,
}
use lambda_os.Prelude.Word.{neg, add32}
use lambda_os.Prelude.Outcome.{Outcome, ok, panic, fault, ◌>>=◌}

abbrev pub einval : ℕ
einval = 22

-- The data of an item, and the items before and behind it.
pub record Item : Type 0 where
  pub data_ptr : ℕ
  pub prev : Option ℕ
  pub next : Option ℕ

abbrev pub Heap : Type 0
Heap = ℕ → Item

-- A list: its pointer to the first item, in the heap of all items.
pub record Llist : Type 0 where
  pub list : Option ℕ
  pub heap : Heap

abbrev pub deref : Option ℕ → Outcome ℕ
deref none = fault
deref (some p) = ok p

abbrev pub set_prev : Heap → ℕ → Option ℕ → Heap
set_prev h p v q = if q == p then record (h q) { prev = v } else h q

abbrev pub set_next : Heap → ℕ → Option ℕ → Heap
set_next h p v q = if q == p then record (h q) { next = v } else h q

-- `llist_init`, which leaves the items.
pub llist_init : Llist → Llist
llist_init l = record l { list = none }

-- The writes of `llist_append_unlocked` to a list with the first item `a` and the last one `z`.
abbrev pub append_heap : Heap → ℕ → ℕ → ℕ → Heap
append_heap h a z item =
    let h1 = set_next h z (some item) in
    let h2 = set_prev h1 item (h1 a).prev in
    let h3 = set_prev h2 a (some item) in set_next h3 item (some a)

pub llist_append : Llist → ℕ → Outcome Llist
llist_append l item = elim l.list [
  | some a ↦ do z ← deref (l.heap a).prev; ok (record l { heap = append_heap l.heap a z item })
  | none ↦ ok (record {
    list = some item;
    heap = set_prev (set_next l.heap item (some item)) item (some item);
  })
]

abbrev pub same_ptr : Option ℕ → Option ℕ → Bool
same_ptr none none = true
same_ptr none (some q) = false
same_ptr (some p) none = false
same_ptr (some p) (some q) = p == q

-- The item loses its references to the list.
abbrev pub detach : Heap → ℕ → Heap
detach h item = set_prev (set_next h item none) item none

-- `item->prev->next = item->next; item->next->prev = item->prev;`
pub unlink : Heap → ℕ → Outcome Heap
unlink h item = do
  p ← deref (h item).prev
  let h1 = set_next h p (h item).next
  n ← deref (h1 item).next
  ok (set_prev h1 n (h1 item).prev)

pub llist_remove : Llist → ℕ → Outcome Llist
unfolding unlink
llist_remove l item = elim l.list [
  | none ↦ ok l
  | some a ↦
      let apart : Outcome Llist = do h ← unlink l.heap item; ok (record l { heap = detach h item })
      in if a == item && same_ptr (l.heap item).next (l.heap item).prev
        then ok (record { list = none; heap = detach l.heap item })
        else apart
]

-- `llist_pop_unlocked`: the last item, or NULL.
pub llist_pop : Llist → Outcome (Option ℕ × Llist)
llist_pop l = elim l.list [
  | none ↦ ok (none, l)
  | some a ↦ do
    z ← deref (l.heap a).prev
    let h1 = set_prev l.heap a (l.heap z).prev
    let rest : Outcome (Option ℕ × Llist) = do
      y ← deref (h1 z).prev
      ok (some z, record l { heap = set_next h1 y (some a) })
    if a == z then ok (some z, record l { list = none }) else rest
]

-- The loop of `llist_count` at `item`, back to `first`.
pub count_loop : ℕ → Heap → ℕ → ℕ → ℕ → Option (Outcome ℕ)
count_loop zero h first item count = none
count_loop (suc f) h first item count = elim (h item).next [
  | none ↦ some fault
  | some n ↦
      let rest = count_loop f h first n (add32 count 1) in
      if n == first then some (ok (add32 count 1)) else rest
]

pub llist_count : ℕ → Llist → Option (Outcome ℕ)
unfolding count_loop
llist_count fuel l = elim l.list [ none ↦ some (ok 0) | some a ↦ count_loop fuel l.heap a a 0 ]

-- The loop of `llist_get` at the item number `count`.
pub get_loop : ℕ → Heap → ℕ → ℕ → ℕ → ℕ → Option (Outcome (Option ℕ))
get_loop zero h first idx item count = none
get_loop (suc f) h first idx item count =
    let next : Option (Outcome (Option ℕ)) = elim (h item).next [
      | none ↦ some (if add32 count 1 == idx then ok none else fault)
      | some n ↦
          let rest = get_loop f h first idx n (add32 count 1) in
          if n == first then some (ok none) else rest
    ] in
    if count == idx then some (ok (some item)) else next

pub llist_get : ℕ → Llist → ℕ → Option (Outcome (Option ℕ))
unfolding get_loop
llist_get fuel l idx = elim l.list [
  | none ↦ some (ok none)
  | some a ↦ get_loop fuel l.heap a idx a 0
]

-- The loop of `llist_get_position` at item number `i`.
pub position_loop : ℕ → Heap → ℕ → ℕ → ℕ → ℕ → Option (Outcome ℕ)
position_loop zero h first item citem i = none
position_loop (suc f) h first item citem i =
    let next : Option (Outcome ℕ) = elim (h citem).next [
      | none ↦ some fault
      | some n ↦
          let rest = position_loop f h first item n (add32 i 1) in
          if n == first then some (ok (neg einval)) else rest
    ] in
    if citem == item then some (ok i) else next

-- An empty list has its NULL pointer followed.
pub llist_get_position : ℕ → Llist → ℕ → Option (Outcome ℕ)
unfolding position_loop
llist_get_position fuel l item = elim l.list [
  | none ↦ some fault
  | some a ↦ position_loop fuel l.heap a item a 0
]

pub record Iterator : Type 0 where
  pub first : Option ℕ
  pub curr : Option ℕ

pub llist_iterator_init : Llist → Iterator
llist_iterator_init l = record { first = l.list; curr = none }

-- `iter->curr->next`, where `curr` is not NULL, and the first item where it is.
abbrev pub advance : Heap → Iterator → Option ℕ
advance h it = elim it.curr [ none ↦ it.first | some c ↦ (h c).next ]

-- The data of the next item, `none` where `llist_iterate` returns 0, and the iterator.
pub llist_iterate : Heap → Iterator → Outcome (Option ℕ × Iterator)
llist_iterate h it =
    let it' : Iterator = record it { curr = advance h it } in
    let out : Outcome (Option ℕ × Iterator) = elim (advance h it) [
      | none ↦ panic
      | some c ↦ ok (some (h c).data_ptr, it')
    ] in
    let on : Outcome (Option ℕ × Iterator) = elim it.curr [
      | none ↦ out
      | some _ ↦ if same_ptr (advance h it) it.first then ok (none, it') else out
    ] in
    elim it.first [ none ↦ ok (none, it) | some _ ↦ on ]

-- A loop `while(llist_iterate(&iter, &data))` that collects what it is given.
pub iterate_all : ℕ → Heap → Iterator → Option (Outcome (List ℕ))
unfolding llist_iterate
iterate_all zero h it = none
iterate_all (suc f) h it = elim (llist_iterate h it) [
  | ok (none, it') ↦ some (ok [])
  | ok (some d, it') ↦ elim (iterate_all f h it') [
    | none ↦ none
    | some r ↦ some (r >>= λ ds. ok (d ∷ ds))
  ]
  | panic ↦ some panic
  | fault ↦ some fault
]
