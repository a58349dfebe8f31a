-- ===== src/Gentian/RefineAll.antt =====
-- `refine_transfers` of src/gentian/trip_based.rs: the refinement over the trips of a partition, which
-- marks the transfers to remove.
pub mod Ranges
pub mod Trip
pub mod Needless
mod Examples
use mathlib.Core.List.{reverse}
use catenary_backend.Common.{
  ℕ, zero, suc, ◌+◌, ◌-◌, Bool, true, false, not, ◌&&◌, Option, none, some, List, [], ◌∷◌, ltb, leb,
  ◌==◌, if◌then◌else◌, ◌>>=◌, length, get_elem?, find?, replicate,
}
use catenary_backend.Common.Words.{u32_max}
use catenary_backend.Common.Loops.{for_each, enumerate}
use catenary_backend.Common.Sorting.{sort_by}
use catenary_backend.Transit.{TransitPartition, TripPattern, CompressedTrip}
use catenary_backend.Gentian.Times.{get_departure_time, trip_arrivals}
use catenary_backend.Gentian.Index.{Footpaths, add_transfer, pattern_stops, store_at}
use catenary_backend.Gentian.Transfers.{Transfer}
use catenary_backend.Gentian.Refine.{Tau, arrive, try_transfer, reset}
use catenary_backend.Gentian.Profile.{TripRange}
use catenary_backend.Gentian.Profile.Forward.{range_indices}

-- The order of the sort: by pattern, then trip, then stop.
unfoldable pub by_origin : Transfer → Transfer → Bool
by_origin a b =
    if a.from_pattern_idx == b.from_pattern_idx
    then (if a.from_trip_idx == b.from_trip_idx
        then leb a.from_stop_idx_in_pattern b.from_stop_idx_in_pattern
        else ltb a.from_trip_idx b.from_trip_idx)
    else ltb a.from_pattern_idx b.from_pattern_idx

abbrev pub leaves_trip : ℕ → ℕ → Transfer → Bool
leaves_trip p t tr = tr.from_pattern_idx == p && tr.from_trip_idx == t

-- The two loops that find the ranges, for the range of the trip (p, t) that starts at `start`, where
-- `rest` is transfers[end..]. The map is a list with the last entry first.
unfoldable pub ranges_from : ℕ → ℕ → ℕ → ℕ → List Transfer → List TripRange → List TripRange
ranges_from start p t end [] ranges =
    record { pattern_idx = p; trip_idx = t; start = start; end = end } ∷ ranges
ranges_from start p t end (tr ∷ rest) ranges = elim (leaves_trip p t tr) [
  | true ↦ ranges_from start p t (end + 1) rest ranges
  | false ↦
      ranges_from end tr.from_pattern_idx tr.from_trip_idx (end + 1) rest
        (record { pattern_idx = p; trip_idx = t; start = start; end = end } ∷ ranges)
]

unfoldable pub trip_transfer_ranges : List Transfer → List TripRange
trip_transfer_ranges [] = []
trip_transfer_ranges (tr ∷ rest) = ranges_from 0 tr.from_pattern_idx tr.from_trip_idx 1 rest []

-- The buffers and the marks.
pub record Marks : Type 0 where
  pub tau : Tau
  pub to_remove : List Bool

-- if !transfer_useful { to_remove[tr_idx] = true }
abbrev pub mark : Bool → ℕ → List Bool → Option (List Bool)
mark useful tr_idx to_remove = if useful then some to_remove else store_at to_remove tr_idx true

module _ (partition : TransitPartition) (transfers : List Transfer) (ranges : List TripRange)
    (f : Footpaths) where
  -- A transfer that leaves at stop i.
  unfoldable pub try_and_mark : CompressedTrip → ℕ → ℕ → Transfer → Marks → Option Marks
  try_and_mark trip i tr_idx tr marks = do
    departure ← get_departure_time partition trip i
    (tau, useful) ← try_transfer partition f.change_times f.footpaths tr marks.tau
    to_remove ← mark useful tr_idx marks.to_remove
    some (record { tau = tau; to_remove = to_remove })

  -- The body of the loop over tr_idx in start_tr..end_tr.
  unfoldable pub try_index : CompressedTrip → ℕ → ℕ → Marks → Option Marks
  try_index trip i tr_idx marks = do
    tr ← get_elem? transfers tr_idx
    if tr.from_stop_idx_in_pattern == i then try_and_mark trip i tr_idx tr marks else some marks

  -- The body of the loop over the stops of the trip.
  unfoldable pub refine_stop : ℕ → ℕ → CompressedTrip → List ℕ → ℕ × ℕ → Marks → Option Marks
  refine_stop p_idx t_idx trip arrivals (i, stop_idx) marks = do
    arr_time ← get_elem? arrivals i
    (tau, _) ← arrive f.change_times f.footpaths stop_idx arr_time marks.tau
    for_each (try_index trip i)
        (range_indices (find? (λ r. r.pattern_idx == p_idx && r.trip_idx == t_idx) ranges))
        (record marks { tau = tau })

  unfoldable pub refine_trip : ℕ → List ℕ → ℕ × CompressedTrip → Marks → Option Marks
  refine_trip p_idx stop_indices (t_idx, trip) marks = do
    fresh ← reset marks.tau
    arrivals ← trip_arrivals partition trip stop_indices
    for_each (refine_stop p_idx t_idx trip arrivals) (reverse (enumerate 0 stop_indices))
        (record marks { tau = fresh })

  unfoldable pub refine_pattern : ℕ × TripPattern → Marks → Option Marks
  refine_pattern (p_idx, pattern) marks = do
    stop_indices ← pattern_stops partition pattern
    for_each (refine_trip p_idx stop_indices) (enumerate 0 pattern.trips) marks

-- transfers.retain(…)
unfoldable pub retain : List Transfer → List Bool → Option (List Transfer)
retain [] flags = some []
retain (tr ∷ transfers) [] = none
retain (tr ∷ transfers) (removed ∷ flags) = do
  kept ← retain transfers flags
  some (if removed then kept else tr ∷ kept)

-- The footpaths and change times, without self loops.
unfoldable pub plain_footpaths : TransitPartition → Option Footpaths
plain_footpaths partition = for_each add_transfer partition.internal_transfers (record {
  footpaths = replicate (length partition.stops) [];
  change_times = replicate (length partition.stops) 0;
})

unfoldable pub refine_transfers : TransitPartition → List Transfer → Option (List Transfer)
refine_transfers partition transfers = do
  let sorted = sort_by by_origin transfers
  let unreached = replicate (length partition.stops) u32_max
  f ← plain_footpaths partition
  marks ←
      for_each (refine_pattern partition sorted (trip_transfer_ranges sorted) f)
        (enumerate 0 partition.trip_patterns)
        (record {
          tau = record { tau_a = unreached; tau_c = unreached; visited = [] };
          to_remove = replicate (length sorted) false;
        })
  retain sorted marks.to_remove
