-- ===== src/Pool.antt =====
-- utils/pool.go: a worker pool with a limited number of jobs at work, as interleaved steps of its
-- goroutines.
pub mod Steps
pub mod Invariant
pub mod Progress
pub mod Termination
mod Examples
