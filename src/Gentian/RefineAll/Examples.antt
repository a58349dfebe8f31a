-- ===== src/Gentian/RefineAll/Examples.antt =====
-- The transfers of line 0 of the small network, refined.
use catenary_backend.Common.{◌≡◌, refl, some, List, [], ◌∷◌, ◌⊎◌, In, find?}
use catenary_backend.Common.Words.{add32, saturating_add32}
use catenary_backend.Common.Loops.{for_each, for_range, enumerate}
use catenary_backend.Common.Sorting.{sort_by}
use catenary_backend.Gentian.Times.{
  add_delta, arrival_round, arrival_loop, get_departure_time, arrivals_from, trip_arrivals,
}
use catenary_backend.Gentian.Index.{push_at, store_at, pattern_stops, Footpaths, add_transfer}
use catenary_backend.Gentian.Transfers.{Transfer}
use catenary_backend.Gentian.Refine.{
  lower_arrival, lower_change, update_tau, relax_footpath, relax_footpaths, arrive, ride,
  try_transfer, reset_stop, reset,
}
use catenary_backend.Gentian.Profile.Forward.{indices_from, range_indices}
use catenary_backend.Gentian.Examples.{network, boarding, line_0_transfers}
use catenary_backend.Gentian.RefineAll.{
  by_origin, ranges_from, trip_transfer_ranges, try_and_mark, try_index, refine_stop, refine_trip,
  refine_pattern, retain, plain_footpaths, refine_transfers,
}
use catenary_backend.Gentian.RefineAll.Needless.{Needless, refine_transfers-Needless}

abbrev survivors : List Transfer
survivors = boarding 1 1 0 60 ∷ boarding 2 2 0 0 ∷ []

abbrev paths : Footpaths
paths = record {
  footpaths = [] ∷ ((2, 120) ∷ []) ∷ [] ∷ [] ∷ [];
  change_times = 0 ∷ 60 ∷ 0 ∷ 0 ∷ [];
}

paths_built : plain_footpaths network ≡ some paths
unfolding plain_footpaths add_transfer push_at store_at for_each
paths_built = refl

network_refined : refine_transfers network line_0_transfers ≡ some survivors
unfolding refine_transfers plain_footpaths add_transfer push_at store_at for_each enumerate sort_by
    by_origin trip_transfer_ranges ranges_from refine_pattern refine_trip refine_stop try_index
    try_and_mark retain range_indices indices_from find? pattern_stops reset reset_stop
    trip_arrivals arrivals_from get_departure_time try_transfer ride arrive relax_footpaths
    relax_footpath update_tau lower_change lower_arrival arrival_loop arrival_round add_delta
    for_range add32 saturating_add32
network_refined = refl

refine_transfers-Needless_example :
    (In (boarding 1 2 1 60) line_0_transfers
      → In (boarding 1 2 1 60) survivors
        ⊎ Needless network paths (λ y. In y survivors) (boarding 1 2 1 60))
    × (In (boarding 1 2 1 60) survivors → In (boarding 1 2 1 60) line_0_transfers)
refine_transfers-Needless_example =
    refine_transfers-Needless network line_0_transfers paths paths_built network_refined
      (boarding 1 2 1 60)
