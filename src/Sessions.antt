-- ===== src/Sessions.antt =====
-- internal/store/sessions.go and consolidation.go: sessions, their raw observations and the records of
-- the worker's runs, and the worker against them.
pub mod Tables
pub mod Calls
pub mod Work
pub mod Order
pub mod Queue
pub mod Lost
pub mod Failing
mod Tests
