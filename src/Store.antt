-- ===== src/Store.antt =====
-- internal/store: the memories of a team, and who may see and change them.
--
-- The table `memories` is a list of rows whose order means nothing. A statement of SQL is what it
-- does to the rows, with the constraints of internal/store/migrations/0001_init.sql; a call is one
-- atomic step. Postgres compares identifiers bytewise.
pub mod Model
pub mod Create
pub mod Read
pub mod Write
pub mod Effects
pub mod Integrity
pub mod Preserved
pub mod Steps
pub mod Tenancy
pub mod Sync
pub mod Recency
pub mod Pages
pub mod Idempotent
mod Tests
mod SyncTests
