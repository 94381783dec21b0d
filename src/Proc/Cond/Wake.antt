-- ===== src/Proc/Cond/Wake.antt =====
-- A signal wakes the threads that wait, and the scheduler finds them.
use lambda_os.Prelude.{
  ℕ, ◌+◌, ◌<◌, ◌≡◌, refl, sym, ap, ◌∙◌, Bool, true, false, ◌||◌, none, some, List, [], ◌∷◌, ◌++◌,
  ◌==◌, if◌then◌else◌, inl, inr, Bool-cases, length, All, arith,
}
use lambda_os.Prelude.Outcome.{ok}
use lambda_os.Data.Llist.{Heap}
use lambda_os.Data.Llist.Ring.{Distinct, Ring}
use lambda_os.Proc.Sched.Next.{Thread, sched_next_process}
use lambda_os.Proc.Sched.Next.First.{is_ready, first_ready, HasThread, sched_next_process_first}
use lambda_os.Proc.Cond.{Waiting, set_cond, unblock_all, cond_signal}

abbrev pub is_in : ℕ → List ℕ → Bool
is_in t [] = false
is_in t (u ∷ us) = (t == u) || is_in t us

unblock_all_lem :
    (ts : List ℕ) (threads : ℕ → Thread) (t : ℕ)
    → unblock_all ts threads t
      ≡ (if is_in t ts then record (threads t) { cond = none } else threads t)
unfolding unblock_all
unblock_all_lem [] threads t = refl
unblock_all_lem (u ∷ us) threads t = ground (arith, unblock_all_lem us (set_cond u none threads) t)

-- cond_signal returns 0 and leaves no waiting thread; of the threads exactly those that waited
-- have their condition cleared, and the others are as before.
pub cond_signal_lem :
    (w : Waiting) (t : ℕ)
    → ((cond_signal w).0 ≡ 0)
      × ((cond_signal w).1.waiters ≡ [])
      × ((cond_signal w).1.threads t
          ≡ (if is_in t w.waiters then record (w.threads t) { cond = none } else w.threads t))
unfolding cond_signal
cond_signal_lem w t = (refl, refl, unblock_all_lem w.waiters w.threads t)

-- A ring with a ready thread has a first one.
first_ready-found :
    (h : Heap) (threads : ℕ → Thread) (xs : List ℕ) (x : ℕ)
    → is_in x xs ≡ true
    → is_ready (threads (h x).data_ptr) ≡ true
    → (t : ℕ) × (first_ready h threads xs ≡ ok t) × (is_ready (threads t) ≡ true)
first_ready-found h threads [] x at ready = cc
first_ready-found h threads (y ∷ ys) x at ready =
    elim (Bool-cases (is_ready (threads (h y).data_ptr))) [
      | inl here ↦ ((h y).data_ptr, rw here refl, here)
      | inr later ↦ elim (Bool-cases (x == y)) [
        | inl same ↦ let x≡y : x ≡ y = ground (arith, same) in absurd (cc)
        | inr differ ↦
            let (t, found, is) =
              first_ready-found h threads ys x (ground (arith, at, differ)) ready in
            (t, rw later found, is)
      ]
    ]

-- A signal leaves the processes.
signal-process :
    (w : Waiting) (t : ℕ) → ((cond_signal w).1.threads t).process ≡ (w.threads t).process
signal-process w t = ground (arith, (cond_signal_lem w t).2)

HasThread-signal :
    (w : Waiting) (h : Heap) (xs : List ℕ)
    → All (HasThread h w.threads) xs
    → All (HasThread h (cond_signal w).1.threads) xs
HasThread-signal w h [] live = tt
HasThread-signal w h (x ∷ xs) live = (
  (live.0.0, live.0.1, λ e. live.0.2 (sym (signal-process w (h x).data_ptr) ∙ e)),
  HasThread-signal w h xs live.1,
)

-- In a ring as for sched_next_process, if some thread waits on a condition and it and its process
-- may run otherwise, then after cond_signal of the condition sched_next_process returns a thread,
-- and one that may run.
pub cond_signal-wakes :
    (w : Waiting) (h : Heap) (a : ℕ) (xs : List ℕ) (fuel x : ℕ)
    → Distinct (a ∷ xs)
    → Ring h a xs
    → All (HasThread h w.threads) (xs ++ a ∷ [])
    → length xs + 1 < fuel
    → is_in x (xs ++ a ∷ []) ≡ true
    → is_in (h x).data_ptr w.waiters ≡ true
    → (w.threads (h x).data_ptr).process ≡ some true
    → (w.threads (h x).data_ptr).runnable ≡ true
    → (t : ℕ) × (sched_next_process fuel h (cond_signal w).1.threads a ≡ some (ok t))
      × (is_ready ((cond_signal w).1.threads t) ≡ true)
cond_signal-wakes w h a xs fuel x d ring live enough at waits runs flag =
    let threads = (cond_signal w).1.threads in
    let ready : is_ready (threads (h x).data_ptr) ≡ true =
      ground (arith, (cond_signal_lem w (h x).data_ptr).2, waits, runs, flag) in
    let (t, found, is) = first_ready-found h threads (xs ++ a ∷ []) x at ready in
    (
      t,
      sched_next_process_first h threads a xs fuel d ring (HasThread-signal w h (xs ++ a ∷ []) live)
            enough
          ∙ ap some found,
      is,
    )
