-- ===== src/Proc/Tests.antt =====
-- Two processors and a ring of three threads, and instances of the theorems on them.
use lambda_os.Prelude.{
  ◌==◌, if◌then◌else◌, ℕ, zero, suc, ◌≡◌, refl, true, false, none, some, [], ◌∷◌, arith,
}
use lambda_os.Prelude.Outcome.{Outcome, ok, fault}
use lambda_os.Data.Llist.{Item}
use lambda_os.Data.Llist.Ring.{Ring}
use lambda_os.Proc.Sched.Queue.{Sched, sched_processes}
use lambda_os.Proc.Sched.Queue.Spread.{sched_processes_overreads, sched_processes_free}
use lambda_os.Proc.Sched.Next.{Thread, sched_next_process}
use lambda_os.Proc.Sched.Next.First.{is_ready, FirstToRun, sched_next_process_lem}
use lambda_os.Proc.Lock.{Clocked}
use lambda_os.Proc.Cond.{Waiting, cond_signal}
use lambda_os.Proc.Cond.Wake.{cond_signal_lem, cond_signal-wakes}

-- One processor, and two threads in the queue.
abbrev one_cpu : Sched
one_cpu = record {
  queue = 9 ∷ 8 ∷ [];
  queue_lock = 1;
  cpus = record { threads = 4 ∷ []; curr = some 4 } ∷ [];
}

not_run : sched_processes (record one_cpu { queue_lock = 0 }) ≡ ok one_cpu
not_run = sched_processes_free (record one_cpu { queue_lock = 0 }) refl

-- With a second processor, the list behind its own is read.
overread :
    sched_processes (record one_cpu {
      cpus = record { threads = 4 ∷ []; curr = some 4 } ∷ record { threads = []; curr = none } ∷ [];
    })
    ≡ fault
overread =
    sched_processes_overreads
      (record one_cpu {
        cpus =
            record { threads = 4 ∷ []; curr = some 4 } ∷ record { threads = []; curr = none } ∷ [];
      })
      9 (8 ∷ []) (record { threads = 4 ∷ []; curr = some 4 }) (record { threads = []; curr = none })
      [] (omega arith) refl refl (omega arith)

-- The items 0, 1 and 2 of the threads 100, 101 and 102.
abbrev ring_at : ℕ → Item
ring_at zero = record { data_ptr = 100; prev = some 2; next = some 1 }
ring_at (suc zero) = record { data_ptr = 101; prev = some 0; next = some 2 }
ring_at (suc (suc k)) = record { data_ptr = 102; prev = some 1; next = some 0 }

-- All threads wait on the condition 7.
abbrev asleep : ℕ → Thread
asleep t = record { process = some true; runnable = true; cond = some 7 }

-- 101 has a process that may not run, the others wait on no condition.
abbrev awake : ℕ → Thread
awake t =
    if t == 101
    then record { process = some false; runnable = true; cond = none }
    else record { process = some true; runnable = true; cond = none }

ring_at-Ring : Ring ring_at 0 (1 ∷ 2 ∷ [])
ring_at-Ring = (((refl, refl), ((refl, refl), tt)), (refl, refl))

sched_next_process_lem_example :
    (r : Outcome ℕ) × (sched_next_process 4 ring_at awake 0 ≡ some r)
    × FirstToRun ring_at awake (1 ∷ 2 ∷ 0 ∷ []) r
sched_next_process_lem_example =
    sched_next_process_lem ring_at awake 0 (1 ∷ 2 ∷ []) 4 (omega arith) ring_at-Ring (ground arith)
      (omega arith)

-- The threads 100 and 102 wait on the condition.
abbrev waiting : Waiting
waiting = record { waiters = 102 ∷ 100 ∷ []; threads = asleep }

woken :
    ((cond_signal waiting).0 ≡ 0)
    × ((cond_signal waiting).1.waiters ≡ [])
    × ((cond_signal waiting).1.threads 102
        ≡ record { process = some true; runnable = true; cond = none })
woken = cond_signal_lem waiting 102

cond_signal-wakes_example :
    (t : ℕ) × (sched_next_process 4 ring_at (cond_signal waiting).1.threads 0 ≡ some (ok t))
    × (is_ready ((cond_signal waiting).1.threads t) ≡ true)
cond_signal-wakes_example =
    cond_signal-wakes waiting ring_at 0 (1 ∷ 2 ∷ []) 4 2 (omega arith) ring_at-Ring (ground arith)
      (omega arith) refl refl refl refl

-- The time goes on by one, and the lock stays with its holder.
abbrev tick : Clocked → Clocked
tick c = record c { kerneltime = suc c.kerneltime }
