-- ===== src/Proc/Lock/Wait.antt =====
-- Waiting for a lock with a limit.
use lambda_os.Prelude.{ℕ, ◌<◌, ◌≤◌, ◌≡◌, ◌≢◌}
use lambda_os.Prelude.Word.{neg}
use lambda_os.Proc.Lock.{Clocked, etimedout}

-- Rounds of a wait up to the time `end`: each finds the lock held before the limit, stores 1, and lets
-- another thread run.
pub data Rounds (run_sched : Clocked → Clocked) (end : ℕ) : Clocked → Clocked → Type 0 where
  here : (c : Clocked) → Rounds run_sched end c c
  later :
      (c d : Clocked)
      → c.lock ≢ 0
      → c.kerneltime < end
      → Rounds run_sched end (run_sched (record c { lock = 1 })) d
      → Rounds run_sched end c d

-- How a wait ends: in a round that finds the lock free, or in one that finds it held at the limit.
pub data Waited (run_sched : Clocked → Clocked) (end : ℕ) (c : Clocked) : ℕ × Clocked → Type 0 where
  taken :
      (d : Clocked)
      → Rounds run_sched end c d
      → d.lock ≡ 0
      → Waited run_sched end c (0, record d { lock = 1 })
  timed_out :
      (d : Clocked)
      → Rounds run_sched end c d
      → d.lock ≢ 0
      → end ≤ d.kerneltime
      → Waited run_sched end c (neg etimedout, record d { lock = 1 })
