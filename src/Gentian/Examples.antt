-- ===== src/Gentian/Examples.antt =====
-- A small network for the theorems on src/gentian/trip_based.rs: line 0 runs A, B, C, line 1 runs
-- B, D twice, and line 2 runs C, B, A back.
use catenary_backend.Common.{
  ℕ, zero, suc, ◌+◌, ◌*◌, ◌<◌, ◌≡◌, refl, none, some, List, [], ◌∷◌, true, false, inl, inr, ◌⊎◌, In,
  any, find?, get_elem?, ◌↔◌, arith,
}
use catenary_backend.Common.Words.{add32, saturating_add32}
use catenary_backend.Common.Loops.{for_range, for_each, enumerate}
use catenary_backend.Transit.{
  TimeDeltaSequence, TransitStop, CompressedTrip, TripPattern, StaticTransfer, TransitPartition,
  DagEdge, transit,
}
use catenary_backend.Gentian.Times.{
  add_delta, arrival_round, arrival_loop, get_arrival_time, get_departure_time, arrivals_from,
  trip_arrivals,
}
use catenary_backend.Gentian.Times.Laws.{
  trip_arrivals-get_arrival_time, get_arrival_time_exact, elapsed,
}
use catenary_backend.Gentian.Index.{
  push_at, store_at, pattern_stops, StopIndex, index_pattern, build_stop_to_patterns, add_transfer,
  add_self_loops, build_footpaths,
}
use catenary_backend.Gentian.Index.Laws.{build_stop_to_patterns_lem, row, stop_at}
use catenary_backend.Gentian.Earliest.{trip_departure, search_loop, earliest_trip}
use catenary_backend.Gentian.Earliest.Laws.{
  Splits, IsLate, earliest_trip-Splits, earliest_trip-IsLate,
}
use catenary_backend.Gentian.Transfers.{
  Transfer, is_valid, offer, try_pattern, try_patterns, try_footpath, try_footpaths, try_stop,
  trip_candidates,
}
use catenary_backend.Gentian.Transfers.Laws.{IsBoardable, trip_candidates-IsBoardable}
use catenary_backend.Gentian.UTurn.{change_time_at, too_late, is_kept, remove_u_turn_transfers}
use catenary_backend.Gentian.UTurn.Laws.{IsUTurn, remove_u_turn_transfers_lem}
use catenary_backend.Gentian.Refine.{
  Tau, lower_arrival, lower_change, update_tau, relax_footpath, relax_footpaths, arrive, ride,
  try_transfer, scan_transfers, scan_stop, reset_stop, reset, refine_transfers_for_trip,
}
use catenary_backend.Gentian.Refine.Laws.{Lowers}
use catenary_backend.Gentian.Refine.Covers.{IsCovered, try_transfer_covers}
use catenary_backend.Gentian.Refine.Visited.{IsTracked}
use catenary_backend.Gentian.Refine.Served.{IsServed, refine_transfers_for_trip-IsServed}
use catenary_backend.Gentian.Initial.{trip_transfers, pattern_transfers, compute_initial_transfers}
use catenary_backend.Gentian.Initial.Laws.{IsInitial, compute_initial_transfers-IsInitial}
use catenary_backend.Common.Sorting.{sort_by}
use catenary_backend.Gentian.Pareto.{Label, frontier_of}
use catenary_backend.Gentian.Pareto.Laws.{
  IsAntichain, Covers, frontier_of-IsAntichain, frontier_of-Covers,
}
use catenary_backend.Gentian.Edges.{EdgeKey, dedup_edges}
use catenary_backend.Gentian.Edges.Distinct.{IsDeduplicated, dedup_edges-IsDeduplicated}
use catenary_backend.Gentian.Edges.Laws.{duration_at, shortest, dedup_edges-shortest}

abbrev stop_named : ℕ → TransitStop
stop_named n = record {
  id = n;
  chateau_idx = 0;
  station_id = "";
  gtfs_stop_ids = [];
  is_hub = false;
  is_border = false;
  is_external_gateway = false;
  is_long_distance = false;
}

abbrev trip_at : ℕ → ℕ → CompressedTrip
trip_at start deltas = record {
  gtfs_trip_id = "";
  service_mask = 127;
  start_time = start;
  time_delta_idx = deltas;
  service_idx = 0;
  bikes_allowed = 0;
  wheelchair_accessible = 0;
}

abbrev line : ℕ → List CompressedTrip → TripPattern
line direction trips = record {
  chateau_idx = 0;
  route_id = "";
  direction_pattern_idx = direction;
  trips = trips;
  timezone_idx = 0;
  route_type = 3;
  is_border = false;
}

abbrev walk_between : ℕ → ℕ → ℕ → StaticTransfer
walk_between from to seconds = record {
  from_stop_idx = from;
  to_stop_idx = to;
  duration_seconds = seconds;
  distance_meters = seconds;
  wheelchair_accessible = true;
}

abbrev long_deltas : TimeDeltaSequence
long_deltas = record { deltas = 0 ∷ 0 ∷ 300 ∷ 30 ∷ 300 ∷ 0 ∷ [] }

abbrev pub network : TransitPartition
network = record {
  partition_id = 0;
  stops = stop_named 0 ∷ stop_named 1 ∷ stop_named 2 ∷ stop_named 3 ∷ [];
  trip_patterns =
      line 0 (trip_at 100 0 ∷ [])
      ∷ line 1 (trip_at 1000 1 ∷ trip_at 2000 1 ∷ [])
      ∷ line 2 (trip_at 900 0 ∷ [])
      ∷ [];
  time_deltas = long_deltas ∷ record { deltas = 0 ∷ 0 ∷ 600 ∷ 0 ∷ [] } ∷ [];
  direction_patterns =
      record { stop_indices = 0 ∷ 1 ∷ 2 ∷ [] }
      ∷ record { stop_indices = 1 ∷ 3 ∷ [] }
      ∷ record { stop_indices = 2 ∷ 1 ∷ 0 ∷ [] }
      ∷ [];
  internal_transfers = walk_between 1 1 60 ∷ walk_between 1 2 120 ∷ [];
  service_ids = [];
}

arrivals_computed :
    trip_arrivals network (trip_at 100 0) (0 ∷ 1 ∷ 2 ∷ []) ≡ some (100 ∷ 400 ∷ 730 ∷ [])
unfolding trip_arrivals arrivals_from add_delta add32
arrivals_computed = refl

trip_arrivals-get_arrival_time_example :
    get_elem? (100 ∷ 400 ∷ 730 ∷ []) 2 ≡ get_arrival_time network (trip_at 100 0) 2
trip_arrivals-get_arrival_time_example =
    trip_arrivals-get_arrival_time network (trip_at 100 0) (0 ∷ 1 ∷ 2 ∷ []) 2 arrivals_computed
      (omega arith)

get_arrival_time_exact_example :
    (get_arrival_time network (trip_at 100 0) 1
      ≡ some (100 + elapsed (0 ∷ 0 ∷ 300 ∷ 30 ∷ 300 ∷ 0 ∷ []) 2))
    × (get_departure_time network (trip_at 100 0) 1
        ≡ some (100 + elapsed (0 ∷ 0 ∷ 300 ∷ 30 ∷ 300 ∷ 0 ∷ []) 3))
get_arrival_time_exact_example =
    get_arrival_time_exact network (trip_at 100 0) 1 long_deltas refl (omega arith)

arrives_at_b : get_arrival_time network (trip_at 100 0) 1 ≡ some 400
unfolding get_arrival_time arrival_loop arrival_round add_delta for_range add32
arrives_at_b = refl

leaves_b : get_departure_time network (trip_at 100 0) 1 ≡ some 430
unfolding get_departure_time arrival_loop arrival_round add_delta for_range add32
leaves_b = refl

arrives_at_c : get_arrival_time network (trip_at 100 0) 2 ≡ some 730
unfolding get_arrival_time arrival_loop arrival_round add_delta for_range add32
arrives_at_c = refl

abbrev pub stop_index : StopIndex
stop_index =
    ((0, 0) ∷ (2, 2) ∷ [])
    ∷ ((0, 1) ∷ (1, 0) ∷ (2, 1) ∷ [])
    ∷ ((0, 2) ∷ (2, 0) ∷ [])
    ∷ ((1, 1) ∷ [])
    ∷ []

index_built : build_stop_to_patterns network ≡ some stop_index
unfolding build_stop_to_patterns index_pattern pattern_stops push_at for_each enumerate
index_built = refl

build_stop_to_patterns_lem_example : In (1, 0) (row stop_index 1) ↔ (stop_at network 1 0 ≡ some 1)
build_stop_to_patterns_lem_example = build_stop_to_patterns_lem network stop_index index_built 1 1 0

abbrev line_1_trips : List CompressedTrip
line_1_trips = trip_at 1000 1 ∷ trip_at 2000 1 ∷ []

line_1_departures :
    (i : ℕ) → i < 2 → trip_departure network line_1_trips 0 i ≡ some (1000 + i * 1000)
unfolding trip_departure get_departure_time arrival_loop arrival_round add_delta for_range add32
line_1_departures zero h = refl
line_1_departures (suc zero) h = refl
line_1_departures (suc (suc i)) h = absurd (omega arith)

earliest_trip-Splits_example :
    (r : ℕ) × (earliest_trip network line_1_trips 0 1500 ≡ some r)
    × Splits (trip_departure network line_1_trips 0) 1500 2 (λ i. 1000 + i * 1000) r
earliest_trip-Splits_example =
    earliest_trip-Splits network line_1_trips 0 1500 (λ i. 1000 + i * 1000) line_1_departures
      (λ i j h k. omega arith)

second_trip : earliest_trip network line_1_trips 0 1500 ≡ some 1
unfolding earliest_trip search_loop trip_departure get_departure_time arrival_loop arrival_round
    add_delta for_range add32
second_trip = refl

earliest_trip-IsLate_example : IsLate (trip_departure network line_1_trips 0) 1500 2 1
earliest_trip-IsLate_example = earliest_trip-IsLate network line_1_trips 0 1500 second_trip

abbrev footpaths_of : List (List (ℕ × ℕ))
footpaths_of = ((0, 0) ∷ []) ∷ ((2, 120) ∷ (1, 60) ∷ []) ∷ ((2, 0) ∷ []) ∷ ((3, 0) ∷ []) ∷ []

footpaths_built :
    build_footpaths network
    ≡ some (record { footpaths = footpaths_of; change_times = 0 ∷ 60 ∷ 0 ∷ 0 ∷ [] })
unfolding build_footpaths add_transfer add_self_loops push_at store_at for_each
footpaths_built = refl

abbrev pub boarding : ℕ → ℕ → ℕ → ℕ → Transfer
boarding i pattern stop seconds = record {
  from_pattern_idx = 0;
  from_trip_idx = 0;
  from_stop_idx_in_pattern = i;
  to_pattern_idx = pattern;
  to_trip_idx = 0;
  to_stop_idx_in_pattern = stop;
  duration = seconds;
}

abbrev pub line_0_transfers : List Transfer
line_0_transfers =
    boarding 1 2 0 120 ∷ boarding 1 1 0 60 ∷ boarding 1 2 1 60 ∷ boarding 2 2 0 0 ∷ []

candidates_found :
    trip_candidates network stop_index footpaths_of (100 ∷ 400 ∷ 730 ∷ []) 0 0 (0 ∷ 1 ∷ 2 ∷ [])
    ≡ some line_0_transfers
unfolding trip_candidates try_stop try_footpaths try_footpath try_patterns try_pattern offer
    is_valid earliest_trip search_loop trip_departure get_departure_time arrival_loop arrival_round
    add_delta pattern_stops for_each enumerate for_range add32 any
candidates_found = refl

trip_candidates-IsBoardable_example :
    IsBoardable network footpaths_of (100 ∷ 400 ∷ 730 ∷ []) (0 ∷ 1 ∷ 2 ∷ []) 0 0 (boarding 1 1 0 60)
trip_candidates-IsBoardable_example =
    trip_candidates-IsBoardable network footpaths_of (100 ∷ 400 ∷ 730 ∷ []) (0 ∷ 1 ∷ 2 ∷ []) 0 0
      stop_index index_built candidates_found (boarding 1 1 0 60) (inr (inl refl))

abbrev kept_transfers : List Transfer
kept_transfers = boarding 1 2 0 120 ∷ boarding 1 1 0 60 ∷ []

u_turn_removed : remove_u_turn_transfers network line_0_transfers ≡ some kept_transfers
unfolding remove_u_turn_transfers is_kept too_late change_time_at pattern_stops get_arrival_time
    get_departure_time arrival_loop arrival_round add_delta for_range add32 find?
u_turn_removed = refl

remove_u_turn_transfers_lem_example :
    (In (boarding 2 2 0 0) line_0_transfers
      → In (boarding 2 2 0 0) kept_transfers ⊎ IsUTurn network (boarding 2 2 0 0))
    × (In (boarding 2 2 0 0) kept_transfers
        → In (boarding 2 2 0 0) line_0_transfers × ¬ IsUTurn network (boarding 2 2 0 0))
remove_u_turn_transfers_lem_example =
    remove_u_turn_transfers_lem network line_0_transfers u_turn_removed (boarding 2 2 0 0)

abbrev no_times : Tau
no_times = record {
  tau_a = 0xffff_ffff ∷ 0xffff_ffff ∷ 0xffff_ffff ∷ 0xffff_ffff ∷ [];
  tau_c = 0xffff_ffff ∷ 0xffff_ffff ∷ 0xffff_ffff ∷ 0xffff_ffff ∷ [];
  visited = [];
}

abbrev times_after : Tau
times_after = record {
  tau_a = 0xffff_ffff ∷ 0xffff_ffff ∷ 0xffff_ffff ∷ 1600 ∷ [];
  tau_c = 0xffff_ffff ∷ 0xffff_ffff ∷ 0xffff_ffff ∷ 1600 ∷ [];
  visited = 3 ∷ [];
}

transfer_tried :
    try_transfer network (0 ∷ 60 ∷ 0 ∷ 0 ∷ []) footpaths_of (boarding 1 1 0 60) no_times
    ≡ some (times_after, true)
unfolding try_transfer ride arrive relax_footpaths relax_footpath update_tau lower_change
    lower_arrival for_each pattern_stops arrival_loop arrival_round add_delta for_range add32
    saturating_add32
transfer_tried = refl

try_transfer_covers_example :
    Lowers no_times times_after
    × IsCovered network times_after (boarding 1 1 0 60)
    × (true ≡ false → times_after ≡ no_times)
try_transfer_covers_example =
    try_transfer_covers (0 ∷ 60 ∷ 0 ∷ 0 ∷ []) footpaths_of network (boarding 1 1 0 60) no_times
      transfer_tried

abbrev times_refined : Tau
times_refined = record {
  tau_a = 100 ∷ 400 ∷ 520 ∷ 1600 ∷ [];
  tau_c = 100 ∷ 460 ∷ 520 ∷ 1600 ∷ [];
  visited = 2 ∷ 1 ∷ 0 ∷ 3 ∷ [];
}

abbrev refined_transfers : List Transfer
refined_transfers = boarding 1 1 0 60 ∷ boarding 2 2 0 0 ∷ []

transfers_refined :
    refine_transfers_for_trip network footpaths_of
      (0 ∷ 60 ∷ 0 ∷ 0 ∷ [])
      (trip_at 100 0)
      (0 ∷ 1 ∷ 2 ∷ [])
      line_0_transfers
      no_times
    ≡ some (refined_transfers, times_refined)
unfolding refine_transfers_for_trip scan_stop scan_transfers reset reset_stop trip_arrivals
    arrivals_from sort_by store_at enumerate try_transfer ride arrive relax_footpaths relax_footpath
    update_tau lower_change lower_arrival for_each pattern_stops arrival_loop arrival_round
    add_delta for_range add32 saturating_add32
transfers_refined = refl

no_times-IsTracked : IsTracked no_times
unfolding IsTracked
no_times-IsTracked zero = inl (refl, refl)
no_times-IsTracked (suc zero) = inl (refl, refl)
no_times-IsTracked (suc (suc zero)) = inl (refl, refl)
no_times-IsTracked (suc (suc (suc zero))) = inl (refl, refl)
no_times-IsTracked (suc (suc (suc (suc s)))) = inl (refl, refl)

refine_transfers_for_trip-IsServed_example :
    ((tr : Transfer)
      → In tr line_0_transfers
      → In tr refined_transfers
        ⊎ IsServed network footpaths_of
            (0 ∷ 1 ∷ 2 ∷ [])
            (100 ∷ 400 ∷ 730 ∷ [])
            4
            refined_transfers
            tr)
    × IsTracked times_refined
refine_transfers_for_trip-IsServed_example =
    refine_transfers_for_trip-IsServed network footpaths_of (0 ∷ 60 ∷ 0 ∷ 0 ∷ []) (trip_at 100 0)
      (0 ∷ 1 ∷ 2 ∷ []) (100 ∷ 400 ∷ 730 ∷ []) line_0_transfers no_times no_times-IsTracked
      arrivals_computed transfers_refined

abbrev pub initial_transfers : List Transfer
initial_transfers =
    boarding 1 1 0 60
    ∷ boarding 2 2 0 0
    ∷ record (boarding 1 1 0 60) { from_pattern_idx = 2; to_trip_idx = 1 }
    ∷ []

initial_computed : compute_initial_transfers network ≡ some initial_transfers
unfolding compute_initial_transfers pattern_transfers trip_transfers build_footpaths add_transfer
    add_self_loops push_at build_stop_to_patterns index_pattern trip_candidates try_stop
    try_footpaths try_footpath try_patterns try_pattern offer is_valid earliest_trip search_loop
    trip_departure get_departure_time any refine_transfers_for_trip scan_stop scan_transfers reset
    reset_stop trip_arrivals arrivals_from sort_by store_at enumerate try_transfer ride arrive
    relax_footpaths relax_footpath update_tau lower_change lower_arrival for_each pattern_stops
    arrival_loop arrival_round add_delta for_range add32 saturating_add32
initial_computed = refl

compute_initial_transfers-IsInitial_example :
    IsInitial network
      (record { footpaths = footpaths_of; change_times = 0 ∷ 60 ∷ 0 ∷ 0 ∷ [] })
      (boarding 2 2 0 0)
compute_initial_transfers-IsInitial_example =
    compute_initial_transfers-IsInitial network
      (record { footpaths = footpaths_of; change_times = 0 ∷ 60 ∷ 0 ∷ 0 ∷ [] }) footpaths_built
      initial_computed (boarding 2 2 0 0) (inr (inl refl))

abbrev label : ℕ → ℕ → Label
label transfers time = record { n = transfers; time = time; inactive = false }

frontier_of-IsAntichain_example :
    IsAntichain (frontier_of (label 0 900 ∷ label 1 800 ∷ label 2 850 ∷ []) [])
frontier_of-IsAntichain_example =
    frontier_of-IsAntichain (label 0 900 ∷ label 1 800 ∷ label 2 850 ∷ []) [] tt

frontier_of-Covers_example :
    Covers (frontier_of (label 0 900 ∷ label 1 800 ∷ label 2 850 ∷ []) []) (label 2 850)
frontier_of-Covers_example =
    frontier_of-Covers (label 0 900 ∷ label 1 800 ∷ label 2 850 ∷ []) [] (label 2 850)
      (inl (inr (inr (inl refl))))

abbrev ride_edge : ℕ → DagEdge
ride_edge seconds = record {
  from_node_idx = 1;
  to_node_idx = 3;
  edge_type = some (
      transit (record {
        trip_pattern_idx = 1;
        start_stop_idx = 0;
        end_stop_idx = 1;
        min_duration = seconds;
      }));
}

abbrev ride_key : EdgeKey
ride_key = record { from_node = 1; to_node = 3; kind = 1; p_idx = 1; s_idx = 0; e_idx = 1 }

dedup_edges-shortest_example :
    duration_at ride_key (dedup_edges (ride_edge 700 ∷ ride_edge 600 ∷ ride_edge 650 ∷ []))
    ≡ shortest ride_key (ride_edge 700 ∷ ride_edge 600 ∷ ride_edge 650 ∷ []) none
dedup_edges-shortest_example =
    dedup_edges-shortest ride_key (ride_edge 700 ∷ ride_edge 600 ∷ ride_edge 650 ∷ [])

dedup_edges-IsDeduplicated_example :
    IsDeduplicated
      (ride_edge 700 ∷ ride_edge 600 ∷ [])
      (dedup_edges (ride_edge 700 ∷ ride_edge 600 ∷ []))
dedup_edges-IsDeduplicated_example = dedup_edges-IsDeduplicated (ride_edge 700 ∷ ride_edge 600 ∷ [])
