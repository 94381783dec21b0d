-- ===== src/Proc/Sched/Queue/Spread.antt =====
-- Where the threads of the queue go.
use lambda_os.Prelude.{
  ℕ, suc, ◌≡◌, ◌≢◌, ◌-◌, refl, Option, none, some, List, [], ◌∷◌, length, arith,
}
use lambda_os.Prelude.Outcome.{Outcome, ok, fault}
use lambda_os.Proc.Sched.Queue.{
  Cpu, Sched, cpu_thread_count, choose_loop, choose_cpu, schedule_thread, drain, sched_processes,
}

-- The current thread of a processor that had `curr`, when the threads of the queue have come.
abbrev pub current : Option ℕ → List ℕ → Option ℕ
current (some x) q = some x
current none [] = none
current none (t ∷ q) = some t

-- If the lock of the queue is free, sched_processes schedules no thread and leaves the lock taken.
pub sched_processes_free :
    (s : Sched) → s.queue_lock ≡ 0 → sched_processes s ≡ ok (record s { queue_lock = 1 })
unfolding sched_processes
sched_processes_free s free = ground (arith, free)

beyond_last : (cs : List Cpu) → cpu_thread_count cs (length cs) ≡ fault
unfolding cpu_thread_count
beyond_last [] = refl
beyond_last (c ∷ cs) = beyond_last cs

choose_cpu_more : (c d : Cpu) (cs : List Cpu) → choose_cpu (c ∷ d ∷ cs) ≡ fault
unfolding choose_cpu choose_loop cpu_thread_count
choose_cpu_more c d cs =
    let rounds : length (c ∷ d ∷ cs) - 1 ≡ suc (length cs) = omega arith in
    rw (rounds, choose_loop, beyond_last cs) refl

-- If the lock of the queue is held, its first thread is not NULL and there are two or more
-- processors, sched_processes reads a list behind the last processor's.
pub sched_processes_overreads :
    (s : Sched) (t : ℕ) (q : List ℕ) (c d : Cpu) (cs : List Cpu)
    → s.queue_lock ≢ 0
    → s.queue ≡ t ∷ q
    → s.cpus ≡ c ∷ d ∷ cs
    → t ≢ 0
    → sched_processes s ≡ fault
unfolding sched_processes drain schedule_thread
sched_processes_overreads s t q c d cs held first more live =
    ground (arith, held, first, more, live, choose_cpu_more c d cs)
