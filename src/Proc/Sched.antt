-- ===== src/Proc/Sched.antt =====
-- The scheduler of kernel/src/proc/sched.c. A thread is the address of its structure.
pub mod Queue
pub mod Next
