-- ===== src/Proc/Sched/Next.antt =====
-- The choice of the next thread: the ring of a processor's threads, by llist_iterate of Data.Llist.
pub mod First
use lambda_os.Prelude.{
  ℕ, zero, suc, ◌+◌, Bool, true, false, ◌&&◌, ◌||◌, not, Option, none, some, List, [], ◌∷◌, ◌++◌,
  ◌==◌, if◌then◌else◌, length,
}
use lambda_os.Prelude.Outcome.{Outcome, ok, panic, fault}
use lambda_os.Data.Llist.{Heap, Iterator, llist_iterate, same_ptr}

-- What the scheduler reads of a thread: its process, with whether TYPE_RUNNABLE is set, whether
-- KTHREAD_FLAG_RUNNABLE is, and the condition that it waits on.
pub record Thread : Type 0 where
  pub process : Option Bool
  pub runnable : Bool
  pub cond : Option ℕ

-- The condition of the loop: may the thread not run?
abbrev pub is_blocked : Thread → Bool → Bool
is_blocked t process_runs =
    not process_runs || not t.runnable || elim t.cond [ none ↦ false | some c ↦ true ]

-- The first value of `iter.first`, which is the address of no item.
abbrev pub no_item : ℕ
no_item = 0xffffffff

-- The iterator with its first item set in the first round.
abbrev pub set_first : Iterator → Iterator
set_first it = if same_ptr it.first (some no_item) then record it { first = it.curr } else it

-- The loop of `sched_next_process`; `none` is out of fuel.
pub next_loop : ℕ → Heap → (ℕ → Thread) → Iterator → Option (Outcome ℕ)
next_loop zero h threads it = none
next_loop (suc f) h threads it = elim (llist_iterate h it) [
  | ok (none, it') ↦ some panic
  | ok (some t, it') ↦
      let rest = next_loop f h threads (set_first it') in
      let check : Bool → Option (Outcome ℕ) =
        λ runs. if is_blocked (threads t) runs then rest else some (ok t) in
      let known : Option (Outcome ℕ) = elim (threads t).process [
        | none ↦ some panic
        | some runs ↦ check runs
      ] in
      if t == 0 then some panic else known
  | panic ↦ some panic
  | fault ↦ some fault
]

-- `sched_next_process` of a processor whose current thread has the item `curr`: the thread that is
-- the current one next. The counters in `stats`, which the choice does not read, are left out.
pub sched_next_process : ℕ → Heap → (ℕ → Thread) → ℕ → Option (Outcome ℕ)
unfolding next_loop
sched_next_process fuel h threads curr =
    next_loop fuel h threads (record { first = some no_item; curr = some curr })
