-- ===== src/Proc/Sched/Next/First.antt =====
-- The next thread is the first in the ring that may run.
use lambda_os.Prelude.{
  ℕ, zero, suc, ◌+◌, ◌<◌, ◌≡◌, ◌≢◌, sym, ap, ◌∙◌, Bool, Bool-cases, true, false, Option, ◌⊎◌, refl,
  ◌↔◌, not, none, some, List, [], ◌∷◌, ◌++◌, if◌then◌else◌, inl, inr, Option-cases, length,
  length-append, All, arith,
}
use lambda_os.Prelude.Outcome.{Outcome, ok, panic}
use lambda_os.Data.Llist.{Heap}
use lambda_os.Data.Llist.Ring.{NotIn, Distinct, Links, last_of, Ring, last_of-append, Links-append}
use lambda_os.Data.Llist.Iterate.{walking, iterate_on, iterate_end}
use lambda_os.Data.Llist.Append.{NotIn-append}
use lambda_os.Proc.Sched.Next.{
  Thread, is_blocked, no_item, set_first, next_loop, sched_next_process,
}

-- May the thread of the item run?
abbrev pub is_ready : Thread → Bool
is_ready t = elim t.process [ none ↦ false | some runs ↦ not (is_blocked t runs) ]

-- The thread of the first item whose thread may run.
abbrev pub first_ready : Heap → (ℕ → Thread) → List ℕ → Outcome ℕ
first_ready h threads [] = panic
first_ready h threads (x ∷ xs) =
    if is_ready (threads (h x).data_ptr) then ok (h x).data_ptr else first_ready h threads xs

-- The thread's process has TYPE_RUNNABLE set and the thread KTHREAD_FLAG_RUNNABLE, and it waits on no
-- condition.
abbrev pub CanRun : Thread → Type 0
CanRun t = (t.process ≡ some true) × (t.runnable ≡ true) × (t.cond ≡ none)

-- What to do with these items: run the thread of the first whose thread can run, or panic.
abbrev pub FirstToRun : Heap → (ℕ → Thread) → List ℕ → Outcome ℕ → Type 0
FirstToRun h threads [] r = r ≡ panic
FirstToRun h threads (x ∷ xs) r =
    (CanRun (threads (h x).data_ptr) × (r ≡ ok (h x).data_ptr))
    ⊎ ((CanRun (threads (h x).data_ptr) → ⊥) × FirstToRun h threads xs r)

ready_iff :
    (p : Option Bool) (r : Bool) (c : Option ℕ)
    → (is_ready (record { process = p; runnable = r; cond = c }) ≡ true)
      ↔ ((p ≡ some true) × (r ≡ true) × (c ≡ none))
ready_iff none r c = ((λ e. absurd (ground arith)), (λ e. absurd (ground (arith, e.0))))
ready_iff (some false) r c = ((λ e. absurd (ground arith)), (λ e. absurd (ground (arith, e.0))))
ready_iff (some true) false c = ((λ e. absurd (ground arith)), (λ e. absurd (ground (arith, e.1))))
ready_iff (some true) true (some x) =
    ((λ e. absurd (ground arith)), (λ e. absurd (ground (arith, e.2))))
ready_iff (some true) true none = ((λ e. (refl, refl, refl)), (λ e. refl))

-- The test of the loop is this predicate.
ready-CanRun : (t : Thread) → (is_ready t ≡ true) ↔ CanRun t
ready-CanRun t = ready_iff t.process t.runnable t.cond

first_ready-FirstToRun :
    (h : Heap) (threads : ℕ → Thread) (xs : List ℕ)
    → FirstToRun h threads xs (first_ready h threads xs)
first_ready-FirstToRun h threads [] = refl
first_ready-FirstToRun h threads (x ∷ xs) =
    let t = threads (h x).data_ptr in
    let same = ready-CanRun t in
    elim (Bool-cases (is_ready t)) [
      | inl ready ↦ inl (same.0 ready, ground (arith, ready))
      | inr blocked ↦ inr (
        (λ can. absurd (ground (arith, blocked, same.1 can))),
        rw blocked (first_ready-FirstToRun h threads xs),
      )
    ]

-- An item with a thread that has a process.
abbrev pub HasThread : Heap → (ℕ → Thread) → ℕ → Type 0
HasThread h threads x =
    ((h x).data_ptr ≢ 0) × (x ≢ no_item) × ((threads (h x).data_ptr).process ≢ none)

module _ (h : Heap) (threads : ℕ → Thread) where
  -- One round, to an item that is not the first.
  round :
      (fuel f y x : ℕ) (e : Outcome ℕ)
      → (h y).next ≡ some x
      → x ≢ f
      → HasThread h threads x
      → next_loop fuel h threads (set_first (walking f x)) ≡ some e
      → next_loop (suc fuel) h threads (walking f y)
        ≡ some (if is_ready (threads (h x).data_ptr) then ok (h x).data_ptr else e)
  unfolding next_loop
  round fuel f y x e next ne live rest = elim (Option-cases (threads (h x).data_ptr).process) [
    | inl missing ↦ absurd (live.2 missing)
    | inr (runs, has) ↦ ground (arith, iterate_on h f y x next ne, has, live.0, rest)
  ]

  walk_ring :
      (xs : List ℕ) (fuel f y : ℕ)
      → Links h y xs
      → NotIn f xs
      → f ≢ no_item
      → (h (last_of y xs)).next ≡ some f
      → All (HasThread h threads) xs
      → length xs < fuel
      → next_loop fuel h threads (walking f y) ≡ some (first_ready h threads xs)
  unfolding next_loop
  walk_ring xs zero f y l n ne back live enough = absurd (omega arith)
  walk_ring [] (suc fuel) f y l n ne back live enough = ground (arith, iterate_end h f y back)
  walk_ring (x ∷ xs) (suc fuel) f y l n ne back live enough =
      let same : set_first (walking f x) ≡ walking f x = ground (arith, ne) in
      round fuel f y x (first_ready h threads xs) l.0.0 n.0 live.0 (
        ap (next_loop fuel h threads) same
        ∙ walk_ring xs fuel f x l.1 n.1 ne back live.1 (omega arith))

-- The loop finds what `first_ready` does.
pub sched_next_process_first :
    (h : Heap) (threads : ℕ → Thread) (a : ℕ) (xs : List ℕ) (fuel : ℕ)
    → Distinct (a ∷ xs)
    → Ring h a xs
    → All (HasThread h threads) (xs ++ a ∷ [])
    → length xs + 1 < fuel
    → sched_next_process fuel h threads a ≡ some (first_ready h threads (xs ++ a ∷ []))
unfolding sched_next_process
sched_next_process_first h threads a xs zero d ring live enough = absurd (omega arith)
sched_next_process_first h threads a [] (suc fuel) d ring live enough =
    let start : set_first (walking no_item a) ≡ walking a a = ground arith in
    round h threads fuel no_item a a panic ring.1.0 live.0.1 live.0 (
      ap (next_loop fuel h threads) start
      ∙ walk_ring h threads [] fuel a a tt tt live.0.1 ring.1.0 tt (omega arith))
sched_next_process_first h threads a (x ∷ xs) (suc fuel) d ring live enough =
    let start : set_first (walking no_item x) ≡ walking x x = ground arith in
    let links = Links-append h x xs a [] ring.0.1 ring.1 tt in
    let apart = NotIn-append x xs a d.1.0 (λ e. d.0.0 (sym e)) in
    let back : (h (last_of x (xs ++ a ∷ []))).next ≡ some x = rw last_of-append ring.0.0.0 in
    let left : length (xs ++ a ∷ []) < fuel = omega (arith, length-append xs (a ∷ [])) in
    round h threads fuel no_item a x (first_ready h threads (xs ++ a ∷ [])) ring.0.0.0 live.0.1
      live.0
      (ap (next_loop fuel h threads) start
        ∙ walk_ring h threads (xs ++ a ∷ []) fuel x x links apart live.0.1 back live.1 left)

-- If the items of a processor are a ring of distinct items, each with a thread that has a process
-- and none at 0xffffffff, the current thread has one of them, and the fuel is above their number,
-- sched_next_process returns the thread of the first item behind the current one, the current one
-- being the last, whose process has TYPE_RUNNABLE set, which has KTHREAD_FLAG_RUNNABLE set and
-- which waits on no condition, and panics where there is none.
pub sched_next_process_lem :
    (h : Heap) (threads : ℕ → Thread) (a : ℕ) (xs : List ℕ) (fuel : ℕ)
    → Distinct (a ∷ xs)
    → Ring h a xs
    → All (HasThread h threads) (xs ++ a ∷ [])
    → length xs + 1 < fuel
    → (r : Outcome ℕ) × (sched_next_process fuel h threads a ≡ some r)
      × FirstToRun h threads (xs ++ a ∷ []) r
sched_next_process_lem h threads a xs fuel d ring live enough = (
  first_ready h threads (xs ++ a ∷ []),
  sched_next_process_first h threads a xs fuel d ring live enough,
  first_ready-FirstToRun h threads (xs ++ a ∷ []),
)
