-- ===== src/Proc/Lock.antt =====
-- The locks of kernel/inc/proc/atomic/lock.h and kernel/src/proc/atomic/lock.c. A lock is 0 or not.
pub mod Wait
use lambda_os.Prelude.{
  ℕ, zero, suc, ◌+◌, ◌%◌, ◌^◌, Bool, Option, none, some, ◌==◌, leb, if◌then◌else◌,
}
use lambda_os.Prelude.Word.{eunspec, neg}

abbrev pub etimedout : ℕ
etimedout = 60

-- `unlock` stores 0.
abbrev pub unlock : ℕ → ℕ
unlock l = 0

-- The result and the lock, which is 1 afterwards.
abbrev pub lock_try : ℕ → ℕ × ℕ
lock_try l = (if l == 0 then neg eunspec else 0, 1)

-- What a lock and the time are while another thread runs.
pub record Clocked : Type 0 where
  pub lock : ℕ
  pub kerneltime : ℕ

-- `run_sched` is what the other threads do to them. The loops run on fuel; `none` is out of fuel.
module _ (run_sched : Clocked → Clocked) where
  pub acquire : ℕ → Clocked → Option Clocked
  acquire zero c = none
  acquire (suc f) c =
      let rest = acquire f (run_sched (record c { lock = 1 })) in
      if c.lock == 0 then some (record c { lock = 1 }) else rest

  -- The loop of `lock_for` up to the time `end`.
  pub acquire_until : ℕ → ℕ → Clocked → Option (ℕ × Clocked)
  acquire_until zero end c = none
  acquire_until (suc f) end c =
      let rest = acquire_until f end (run_sched (record c { lock = 1 })) in
      let late =
        if leb end c.kerneltime then some (neg etimedout, record c { lock = 1 }) else rest in
      if c.lock == 0 then some (0, record c { lock = 1 }) else late

  pub lock_for : ℕ → ℕ → Clocked → Option (ℕ × Clocked)
  unfolding acquire_until
  lock_for fuel ms c = acquire_until fuel ((c.kerneltime + ms) % 2 ^ 64) c
