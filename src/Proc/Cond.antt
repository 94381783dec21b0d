-- ===== src/Proc/Cond.antt =====
-- The conditions of kernel/src/proc/cond.c. The list of a condition is its waiting threads, from the
-- last one on, where llist_pop_unlocked takes from; each has an item of its own from kmalloc.
pub mod Wake
use lambda_os.Prelude.{ℕ, Bool, true, false, Option, none, some, List, [], ◌∷◌, ◌==◌, if◌then◌else◌}
use lambda_os.Prelude.Word.{neg, eunspec}
use lambda_os.Proc.Sched.Next.{Thread}

abbrev pub enomem : ℕ
enomem = 12

-- A condition and all threads.
pub record Waiting : Type 0 where
  pub waiters : List ℕ
  pub threads : ℕ → Thread

-- `thread->cond = c`
abbrev pub set_cond : ℕ → Option ℕ → (ℕ → Thread) → ℕ → Thread
set_cond t c threads u = if u == t then record (threads u) { cond = c } else threads u

-- `cond_init`
pub cond_init : Waiting → Waiting
cond_init w = record w { waiters = [] }

-- `cond_wait` on the condition at `cond`, up to its call of run_sched. `thread` is the current thread,
-- `none` for NULL, `kmalloc` is whether the item was allocated.
pub cond_wait : Option ℕ → Bool → ℕ → Waiting → ℕ × Waiting
cond_wait none kmalloc cond w = (neg eunspec, w)
cond_wait (some t) false cond w = (neg enomem, w)
cond_wait (some t) true cond w =
    (0, record { waiters = t ∷ w.waiters; threads = set_cond t (some cond) w.threads })

-- `_unblock_thread` of each item, which always returns 0.
pub unblock_all : List ℕ → (ℕ → Thread) → ℕ → Thread
unblock_all [] threads = threads
unblock_all (t ∷ ts) threads = unblock_all ts (set_cond t none threads)

pub cond_signal : Waiting → ℕ × Waiting
unfolding unblock_all
cond_signal w = (0, record { waiters = []; threads = unblock_all w.waiters w.threads })
