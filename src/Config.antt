-- ===== src/Config.antt =====
-- internal/config: the configuration of the server, its checks, its unknown keys and its overrides.
pub mod Model
pub mod Validate
pub mod Distance
pub mod Unknown
pub mod Reported
pub mod Environment
pub mod Overrides
pub mod Load
pub mod Edits
pub mod Table
pub mod Startup
pub mod Defaults
mod Tests
