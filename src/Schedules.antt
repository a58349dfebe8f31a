-- ===== src/Schedules.antt =====
-- Schedules: the filters of src/schedule_filtering/mod.rs over the tables of a GTFS feed, and the
-- calendars of src/lib.rs.
pub mod Feed
pub mod Active
pub mod Prune
pub mod Services
pub mod Ranges
pub mod Clock
mod Examples
