-- ===== src/Cfg.antt =====
-- Package `cfg`, config.go: the configuration from the environment.
pub mod Types
pub mod Load
pub mod Endpoints
pub mod Accepted
pub mod Sizes
mod Examples
