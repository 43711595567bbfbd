-- ===== src/Producer.antt =====
-- Package `handlers`: the HTTP listener that takes the telemetry events.
pub mod Handle
pub mod Delivered
pub mod Server
mod Examples
