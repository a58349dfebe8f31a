-- ===== src/Gentian/Times.antt =====
-- Arrival and departure times along a trip: `get_arrival_time`, `get_departure_time`, and the
-- running times that the other functions of src/gentian/trip_based.rs build stop by stop.
pub mod Laws
use catenary_backend.Common.{
  ℕ, zero, suc, ◌+◌, ◌*◌, Option, none, some, List, [], ◌∷◌, ltb, if◌then◌else◌, ◌>>=◌, length,
  get_elem?, get_or,
}
use catenary_backend.Common.Words.{add32}
use catenary_backend.Common.Loops.{for_range}
use catenary_backend.Transit.{TransitPartition, CompressedTrip}

-- if j < deltas.len() { time += deltas[j] }
unfoldable pub add_delta : List ℕ → ℕ → ℕ → ℕ
add_delta deltas j time = if ltb j (length deltas) then add32 time (get_or deltas j 0) else time

-- The body of the loop over k in 0..=stop_idx.
unfoldable pub arrival_round : List ℕ → ℕ → ℕ → ℕ → ℕ
arrival_round deltas stop_idx k time =
    let travelled = if ltb 0 k then add_delta deltas (2 * k) time else time in
    if ltb k stop_idx then add_delta deltas (2 * k + 1) travelled else travelled

-- The loop over k in 0..=stop_idx.
unfoldable pub arrival_loop : List ℕ → ℕ → ℕ → ℕ
arrival_loop deltas start_time stop_idx =
    for_range (stop_idx + 1) 0 (arrival_round deltas stop_idx) start_time

unfoldable pub get_arrival_time : TransitPartition → CompressedTrip → ℕ → Option ℕ
get_arrival_time partition trip stop_idx = do
  delta_seq ← get_elem? partition.time_deltas trip.time_delta_idx
  some (arrival_loop delta_seq.deltas trip.start_time stop_idx)

unfoldable pub get_departure_time : TransitPartition → CompressedTrip → ℕ → Option ℕ
get_departure_time partition trip stop_idx = do
  delta_seq ← get_elem? partition.time_deltas trip.time_delta_idx
  let time = arrival_loop delta_seq.deltas trip.start_time stop_idx
  some (add_delta delta_seq.deltas (2 * stop_idx + 1) time)

-- The loop that fills `trip_arrivals` for the stops i, i + 1, … (n of them).
unfoldable pub arrivals_from : List ℕ → ℕ → ℕ → ℕ → List ℕ
arrivals_from deltas zero i current_time = []
arrivals_from deltas (suc n) i current_time =
    let arrival = if ltb 0 i then add_delta deltas (2 * i) current_time else current_time in
    arrival ∷ arrivals_from deltas n (i + 1) (add_delta deltas (2 * i + 1) arrival)

unfoldable pub trip_arrivals : TransitPartition → CompressedTrip → List ℕ → Option (List ℕ)
trip_arrivals partition trip stop_indices = do
  delta_seq ← get_elem? partition.time_deltas trip.time_delta_idx
  some (arrivals_from delta_seq.deltas (length stop_indices) 0 trip.start_time)
