-- ===== src/Connect.antt =====
-- internal/connect/writers.go: dkm's entries in the configuration files of coding agents.
pub mod Json
pub mod Hooks
pub mod Entries
pub mod Commands
pub mod Repeat
pub mod Codex
pub mod Lines
pub mod Trims
pub mod Headers
pub mod Section
pub mod Again
pub mod Agents
pub mod Servers
mod Tests
