-- ===== src/Data/Llist/Tests.antt =====
-- Instances of the theorems on a list of three items.
use lambda_os.Prelude.{ℕ, zero, suc, ◌≡◌, ◌≢◌, refl, some, [], ◌∷◌, arith}
use lambda_os.Prelude.Outcome.{ok}
use lambda_os.Data.Llist.{
  Item, Llist, llist_append, llist_remove, llist_pop, llist_count, llist_get, llist_get_position,
  llist_iterator_init, iterate_all,
}
use lambda_os.Data.Llist.Ring.{HasItems}
use lambda_os.Data.Llist.Append.{llist_append-HasItems}
use lambda_os.Data.Llist.Remove.{llist_remove-HasItems, llist_remove_first}
use lambda_os.Data.Llist.Pop.{llist_pop-HasItems}
use lambda_os.Data.Llist.Count.{llist_count_lem, llist_get_lem}
use lambda_os.Data.Llist.Iterate.{data_of, iterate_all-HasItems, llist_get_position_lem}

abbrev item_at : ℕ → Item
item_at zero = record { data_ptr = 100; prev = some 2; next = some 1 }
item_at (suc zero) = record { data_ptr = 101; prev = some 0; next = some 2 }
item_at (suc (suc k)) = record { data_ptr = 102; prev = some 1; next = some 0 }

-- The items 0, 1 and 2.
abbrev three : Llist
three = record { list = some 0; heap = item_at }

three-HasItems : HasItems three (0 ∷ 1 ∷ 2 ∷ [])
three-HasItems = (refl, omega arith, (((refl, refl), ((refl, refl), tt)), (refl, refl)))

llist_append-HasItems_example :
    (l' : Llist) × (llist_append three 7 ≡ ok l') × HasItems l' (0 ∷ 1 ∷ 2 ∷ 7 ∷ [])
llist_append-HasItems_example =
    llist_append-HasItems three (0 ∷ 1 ∷ 2 ∷ []) 7 three-HasItems (omega arith)

llist_remove-HasItems_example :
    (l' : Llist) × (llist_remove three 1 ≡ ok l') × HasItems l' (0 ∷ 2 ∷ [])
llist_remove-HasItems_example = llist_remove-HasItems three 0 [] 1 (2 ∷ []) three-HasItems

first_removed : (l' : Llist) × (llist_remove three 0 ≡ ok l') × (l'.list ≢ some 1)
first_removed = llist_remove_first three 0 1 (2 ∷ []) three-HasItems

popped : (l' : Llist) × (llist_pop three ≡ ok (some 2, l')) × HasItems l' (0 ∷ 1 ∷ [])
popped = llist_pop-HasItems three (0 ∷ 1 ∷ []) 2 three-HasItems

three_items : llist_count 3 three ≡ some (ok 3)
three_items = llist_count_lem three (0 ∷ 1 ∷ 2 ∷ []) 3 three-HasItems (omega arith) (omega arith)

third : llist_get 3 three 2 ≡ some (ok (some 2))
third = llist_get_lem three (0 ∷ 1 ∷ 2 ∷ []) 3 2 three-HasItems (omega arith) (omega arith)

second : llist_get_position 3 three 1 ≡ some (ok 1)
second = llist_get_position_lem three 0 (1 ∷ 2 ∷ []) 1 3 three-HasItems (omega arith) (omega arith)

all_three :
    iterate_all 4 three.heap (llist_iterator_init three)
    ≡ some (ok (data_of three.heap (0 ∷ 1 ∷ 2 ∷ [])))
all_three = iterate_all-HasItems three (0 ∷ 1 ∷ 2 ∷ []) 4 three-HasItems (omega arith)
