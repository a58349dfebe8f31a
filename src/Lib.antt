-- ===== src/Lib.antt =====
-- Catenary backend: the routing and realtime logic of a transit data server, written in Rust.
--
-- The graph generator gentian cuts the network into partitions of stops and precomputes, for each,
-- the transfers between trips that a journey may need (src/gentian/trip_based.rs); queries over a
-- partition then follow these transfers only. Schedules come from GTFS feeds; realtime feeds are
-- kept in a compact form (src/compact_formats.rs), from which the server chooses the update to
-- show for a vehicle (src/aspen/stop_time_logic.rs).
--
-- Transit.antt holds the records of src/routing_common/transit_graph.rs. Gentian/ follows
-- src/gentian/trip_based.rs function by function: Times (get_arrival_time, get_departure_time and
-- the running times that other functions build), Index (build_stop_to_patterns, build_footpaths),
-- Earliest (the binary search for a trip), Transfers (the candidate transfers of a trip), Refine
-- (refine_transfers_for_trip), Initial (compute_initial_transfers, which calls all of these),
-- UTurn (remove_u_turn_transfers), RefineAll (refine_transfers, over all trips of a partition),
-- and from compute_profile_query Profile (its arguments, the seeds that it collects, and
-- Profile/Forward, the search over a stack of trips from the seeds, and Profile/Arrivals, the
-- arrivals that it returns, with run_trip_based_profile, its caller), Pareto (the frontier of a
-- target stop) and Edges (the deduplication of the result edges). Realtime/Compact is
-- src/compact_formats.rs, Realtime/Closest is find_closest_stop_time_update, and Realtime/Delay is
-- calculate_delay of src/aspen/delay_calculation.rs. Schedules/ is src/schedule_filtering/mod.rs:
-- Feed (the tables of a GTFS feed), Active (which services minimum_day_filter keeps) and Prune
-- (both filters); Services is the calendar structure of src/lib.rs
-- (make_calendar_structure_from_pg_single_chateau, datetime_in_service), Ranges its
-- find_service_ranges, and Clock its times of day as text, with the decimal printing and reading of
-- the standard library that they use. Each has its theorems in modules below it. Common/ has what
-- they share: tests, lists, loops with their invariant rules, sorting, words.
--
-- Code that may panic on an index out of range returns an Option, and `none` is the panic. State
-- that a function mutates is passed and returned. Sums on u32 wrap as in a release build
-- (Common/Words), and indices cast to u16 are cut. Two loops run on fuel. The binary search is
-- given one round more than there are trips, and each round makes the range shorter. The search
-- over a stack is given one round more than all labels can fall, 2^31 for each, and a trip is
-- pushed only when a label falls. Both are proved to end. The loop over the days of a calendar is
-- given the days from its first to its last. Hash maps are association lists where no statement
-- depends on their order. `partition_point` finds the first trip in the order of the list, as the
-- library promises where the trips of a pattern leave in order. The noon of a date is missing where
-- the time zone skips or repeats it, and there the code panics. Patterns that the code walks in
-- parallel share nothing, so they are walked in order.
--
-- Left out: coordinates and geometry (floating point), the database, HTTP and file services, and
-- of src/gentian/trip_based.rs the edges that compute_profile_query collects in its buffers beside
-- what it returns (only their frontier and deduplication are modelled), and
-- compute_one_to_all_profile. What a profile query returns for a target counts trips that call there
-- and walks from the start, not a walk after a trip, and the journeys of Profile/Arrivals/Earliest
-- are the same. Entries of a hash map are walked in the order of the list; the profiles of different
-- targets do not depend on each other.
pub mod Common
pub mod Transit
pub mod Gentian
pub mod Realtime
pub mod Schedules
