-- ===== src/Gentian/Initial.antt =====
-- `compute_initial_transfers` of src/gentian/trip_based.rs. The patterns are walked in parallel and
-- their results appended in order; no state is shared between them, so the model walks them in order.
pub mod Laws
use catenary_backend.Common.{ℕ, Option, none, some, List, [], ◌++◌, ◌>>=◌, length, replicate}
use catenary_backend.Common.Words.{u32_max}
use catenary_backend.Common.Loops.{for_each, enumerate}
use catenary_backend.Transit.{TransitPartition, TripPattern, CompressedTrip}
use catenary_backend.Gentian.Times.{trip_arrivals}
use catenary_backend.Gentian.Index.{
  StopIndex, Footpaths, pattern_stops, build_stop_to_patterns, build_footpaths,
}
use catenary_backend.Gentian.Transfers.{Transfer, trip_candidates}
use catenary_backend.Gentian.Refine.{Tau, refine_transfers_for_trip}

-- What the trips of one pattern share: the transfers found and the buffers.
pub record Work : Type 0 where
  pub out : List Transfer
  pub tau : Tau

-- The body of the loop over the trips of a pattern.
unfoldable pub trip_transfers :
    TransitPartition → StopIndex → Footpaths → ℕ → List ℕ → ℕ × CompressedTrip → Work → Option Work
trip_transfers partition stop_to_patterns f p_idx stop_indices (t_idx, trip) work = do
  arrivals ← trip_arrivals partition trip stop_indices
  found ← trip_candidates partition stop_to_patterns f.footpaths arrivals p_idx t_idx stop_indices
  (survivors, tau) ←
      refine_transfers_for_trip partition f.footpaths f.change_times trip stop_indices found
        work.tau
  some (record { out = work.out ++ survivors; tau = tau })

unfoldable pub pattern_transfers :
    TransitPartition
    → StopIndex
    → Footpaths
    → ℕ × TripPattern
    → List Transfer
    → Option (List Transfer)
pattern_transfers partition stop_to_patterns f (p_idx, pattern) transfers = do
  let unreached = replicate (length partition.stops) u32_max
  stop_indices ← pattern_stops partition pattern
  work ←
      for_each (trip_transfers partition stop_to_patterns f p_idx stop_indices)
        (enumerate 0 pattern.trips)
        (record { out = []; tau = record { tau_a = unreached; tau_c = unreached; visited = [] } })
  some (transfers ++ work.out)

unfoldable pub compute_initial_transfers : TransitPartition → Option (List Transfer)
compute_initial_transfers partition = do
  stop_to_patterns ← build_stop_to_patterns partition
  f ← build_footpaths partition
  for_each (pattern_transfers partition stop_to_patterns f) (enumerate 0 partition.trip_patterns) []
