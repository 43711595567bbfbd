-- ===== src/Processor.antt =====
-- Package `pushers`, processor.go: from telemetry events to newline-separated JSON records.
pub mod Types
pub mod Events
pub mod Loop
pub mod Printable
pub mod Frame
pub mod Lifecycle
pub mod Rejected
pub mod Batches
pub mod Stream
pub mod Examples
pub mod Readable
