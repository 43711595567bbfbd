-- ===== src/System.antt =====
-- main.go: an invocation, with the processor and the pusher it runs over unbuffered channels.
pub mod Steps
pub mod Stuck
pub mod Calm
pub mod Drained
pub mod Ending
pub mod Refines
pub mod Stopping
mod Examples
