-- ===== src/Proc.antt =====
-- Locks, conditions, the scheduler and the arguments of a program of kernel/src/proc.
pub mod Lock
pub mod Sched
pub mod Cond
mod Tests
pub mod Exec
