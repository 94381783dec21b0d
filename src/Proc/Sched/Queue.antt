-- ===== src/Proc/Sched/Queue.antt =====
-- The queue of new threads and their way to the processors. The queue is kept from its last item on,
-- where llist_pop_unlocked takes from; the list of a processor is in its own order.
pub mod Spread
use lambda_os.Prelude.{
  ℕ, zero, suc, ◌+◌, Bool, true, false, Option, none, some, List, [], ◌∷◌, ◌++◌, ◌==◌, ◌-◌, ◌||◌,
  ltb, if◌then◌else◌, length,
}
use lambda_os.Prelude.Outcome.{Outcome, ok, panic, fault, ◌>>=◌}
use lambda_os.Prelude.Word.{neg}
use lambda_os.Proc.Lock.{unlock, lock_try, etimedout}

-- One processor: its list of threads and its current thread.
pub record Cpu : Type 0 where
  pub threads : List ℕ
  pub curr : Option ℕ

-- `_thread_queue`, its lock, and the `_n_cpus` processors.
pub record Sched : Type 0 where
  pub queue : List ℕ
  pub queue_lock : ℕ
  pub cpus : List Cpu

-- `_cpu_thread_count`; the array has no list behind the last processor's.
pub cpu_thread_count : List Cpu → ℕ → Outcome ℕ
cpu_thread_count [] cpu = fault
cpu_thread_count (c ∷ cs) zero = ok (length c.threads)
cpu_thread_count (c ∷ cs) (suc cpu) = cpu_thread_count cs cpu

-- The loop of `_schedule_thread` with `n` rounds to go, at round `i`. It counts the list of index
-- `_n_cpus` in every round.
pub choose_loop : List Cpu → ℕ → ℕ → ℕ → ℕ → Outcome ℕ
unfolding cpu_thread_count
choose_loop cs zero i count cpu = ok cpu
choose_loop cs (suc n) i count cpu = cpu_thread_count cs (length cs) >>= λ cnt.
    choose_loop cs n (i + 1) (if ltb cnt count then cnt else count)
      (if ltb cnt count then i else cpu)

-- The processor that `_schedule_thread` takes.
pub choose_cpu : List Cpu → Outcome ℕ
unfolding choose_loop
choose_cpu cs = cpu_thread_count cs 0 >>= λ count. choose_loop cs (length cs - 1) 1 count 0

-- Is the thread in a list? Its `sched_item`, of which it has one, is in a list then.
abbrev pub is_in : ℕ → List ℕ → Bool
is_in t [] = false
is_in t (u ∷ us) = (u == t) || is_in t us

abbrev pub is_on_cpu : ℕ → List Cpu → Bool
is_on_cpu t [] = false
is_on_cpu t (c ∷ cs) = is_in t c.threads || is_on_cpu t cs

-- `_cpu_add_thread`, of a thread whose `sched_item` is in no list.
abbrev pub add_to : ℕ → Cpu → Cpu
add_to t c = record {
  threads = c.threads ++ t ∷ [];
  curr = elim c.curr [ none ↦ some t | some x ↦ some x ];
}

pub add_to_cpu : ℕ → ℕ → List Cpu → Outcome (List Cpu)
add_to_cpu i t [] = fault
add_to_cpu zero t (c ∷ cs) = ok (add_to t c ∷ cs)
add_to_cpu (suc i) t (c ∷ cs) = do cs' ← add_to_cpu i t cs; ok (c ∷ cs')

-- To append a `sched_item` that is in a list already breaks that list, which is a fault here.
pub cpu_add_thread : ℕ → ℕ → List Cpu → Outcome (List Cpu)
unfolding add_to_cpu
cpu_add_thread i t cs = if is_on_cpu t cs then fault else add_to_cpu i t cs

pub schedule_thread : ℕ → List Cpu → Outcome (List Cpu)
unfolding choose_cpu cpu_add_thread
schedule_thread t cs = if t == 0 then panic else choose_cpu cs >>= λ i. cpu_add_thread i t cs

-- The loop of `sched_processes`: the queue is popped until it is empty.
pub drain : List ℕ → List Cpu → Outcome (List Cpu)
unfolding schedule_thread
drain [] cs = ok cs
drain (t ∷ q) cs = schedule_thread t cs >>= λ cs'. drain q cs'

pub sched_processes : Sched → Outcome Sched
unfolding drain
sched_processes s =
    let (taken, l) = lock_try s.queue_lock in
    let run : Outcome Sched = do
      cs ← drain s.queue s.cpus
      ok (record { queue = []; queue_lock = unlock l; cpus = cs })
    in if taken == 0 then run else ok (record s { queue_lock = l })

-- `sched_enqueue_thread`, by the result of `lock_for` on the lock of the queue: 0, or a timeout. To
-- append a `sched_item` that is in a list already is a fault.
pub sched_enqueue_thread : ℕ → ℕ → Sched → Outcome (ℕ × Sched)
sched_enqueue_thread locked t s =
    let added : Sched = record s { queue = t ∷ s.queue; queue_lock = unlock 1 } in
    if t == 0
    then panic
    else if locked == 0
    then (if is_in t s.queue || is_on_cpu t s.cpus then fault else ok (0, added))
    else ok (neg etimedout, record s { queue_lock = 1 })
