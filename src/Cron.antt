-- ===== src/Cron.antt =====
-- internal/cron/cron.go: five-field cron expressions and the time they fire next.
pub mod Schedule
pub mod Calendar
pub mod Next
pub mod Firing
pub mod Marks
pub mod Parsed
pub mod Fields
mod Tests
