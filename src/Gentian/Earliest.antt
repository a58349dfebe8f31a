-- ===== src/Gentian/Earliest.antt =====
-- The binary search for the earliest trip of a pattern that leaves a stop at a time or later, in
-- `compute_initial_transfers` of src/gentian/trip_based.rs.
pub mod Laws
use catenary_backend.Common.{
  ℕ, zero, suc, ◌+◌, ◌/◌, Option, none, some, List, ltb, if◌then◌else◌, ◌>>=◌, length, get_elem?,
}
use catenary_backend.Transit.{TransitPartition, CompressedTrip}
use catenary_backend.Gentian.Times.{get_departure_time}

-- get_departure_time(partition, &trips[t], stop_idx)
unfoldable pub trip_departure : TransitPartition → List CompressedTrip → ℕ → ℕ → Option ℕ
trip_departure partition trips stop_idx t = do
  trip ← get_elem? trips t
  get_departure_time partition trip stop_idx

-- while lo < hi { … }, on fuel. `none` is a panic, or fuel that ran out.
unfoldable pub search_loop : (ℕ → Option ℕ) → ℕ → ℕ → ℕ → ℕ → Option ℕ
search_loop departs min_dep_time zero lo hi = none
search_loop departs min_dep_time (suc fuel) lo hi =
    let mid = (lo + hi) / 2 in
    let upper = search_loop departs min_dep_time fuel (mid + 1) hi in
    let lower = search_loop departs min_dep_time fuel lo mid in
    if ltb lo hi
    then (departs mid >>= λ dep. if ltb dep min_dep_time then upper else lower)
    else some lo

-- A range of n trips is empty after at most n rounds, so n + 1 rounds of fuel are enough.
unfoldable pub earliest_trip : TransitPartition → List CompressedTrip → ℕ → ℕ → Option ℕ
earliest_trip partition trips stop_idx min_dep_time =
    search_loop (trip_departure partition trips stop_idx) min_dep_time (suc (length trips)) 0
      (length trips)
