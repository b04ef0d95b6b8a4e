-- ===== src/Config.antt =====
-- internal/config/config.go: the configuration of the relay.
pub mod Data
pub mod Checks
pub mod Validate
pub mod Load
pub mod Log
pub mod Samples
mod Tests
