-- ===== src/Extension.antt =====
-- main.go: the start of the extension, and the loop over the events of the Extensions API.
pub mod Types
pub mod Start
pub mod Started
pub mod Panics
pub mod Wiring
pub mod Workers
pub mod Invocations
mod Examples
pub mod Received
pub mod Session
pub mod Signals
