-- ===== src/Sched.antt =====
-- The scheduler of src/sched.c.
pub mod Queue
pub mod Pool
pub mod Switch
pub mod Exit
pub mod Wait
pub mod Reap
pub mod Invariant
pub mod Block
pub mod Tick
mod Tests
