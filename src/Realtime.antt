-- ===== src/Realtime.antt =====
-- GTFS Realtime: the compact form of the feeds (src/compact_formats.rs) and the choice of the stop
-- time update shown for a vehicle (src/aspen/stop_time_logic.rs), and the delay of a trip
-- (src/aspen/delay_calculation.rs).
pub mod Compact
pub mod Closest
pub mod Delay
mod Examples
