-- ===== src/Scheduling.antt =====
-- scheduling/: runs that repeat on an interval and runs that an event triggers.
pub mod Tables
pub mod Schedules
pub mod Marks
pub mod Claim
pub mod Dispatch
pub mod Broadcast
pub mod Runner
pub mod Events
pub mod Handlers
