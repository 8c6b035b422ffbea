-- ===== src/Consolidate.antt =====
-- internal/consolidate: the worker that turns sessions into summaries, facts and lessons by a language
-- model, against the interface of the store, the model and the clock in Consolidate/Backend.
pub mod Backend
pub mod Retry
pub mod Attempts
pub mod Drain
pub mod Backlog
pub mod Instructions
pub mod Prompt
pub mod Tier1
pub mod Budget
pub mod Progress
pub mod Json
pub mod Brackets
pub mod Decode
pub mod Tier2
pub mod Cleared
pub mod Unread
pub mod Facts
pub mod Ceiling
mod Tests
pub mod Tier3
pub mod Report
pub mod Guard
pub mod Upkeep
