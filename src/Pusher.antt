-- ===== src/Pusher.antt =====
-- Package `pushers`, pusher.go: buffering payloads and sending them.
pub mod Flush
pub mod Loop
pub mod Records
pub mod Whole
pub mod Ledger
pub mod Signals
pub mod Failures
pub mod Requests
pub mod Sent
mod Examples
