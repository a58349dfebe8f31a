-- ===== src/Gentian/Profile/Examples.antt =====
-- A query on the small network: from A, with at most two changes.
use catenary_backend.Common.{
  ℕ, zero, suc, ◌≡◌, ◌≢◌, ◌⊎◌, refl, some, some-injective, ap, ◌<◌, inl, inr, List, [], ◌∷◌, true,
  get_elem?, find?, arith,
}
use catenary_backend.Common.Words.{u32_max, u16_mod, add32, sub32, saturating_add32}
use catenary_backend.Common.Loops.{for_each, for_range, enumerate}
use catenary_backend.Common.Sorting.{sort_by}
use catenary_backend.Gentian.Times.{
  add_delta, arrival_round, arrival_loop, get_arrival_time, get_departure_time,
}
use catenary_backend.Gentian.Index.{pattern_stops, store_at}
use catenary_backend.Gentian.Transfers.{Transfer}
use catenary_backend.Gentian.Examples.{network, stop_index, initial_transfers}
use catenary_backend.Gentian.Profile.{TripRange, Query, idx_of, get_flat_id}
use catenary_backend.Gentian.Profile.Seeds.{
  Seed, walks_from, initial_walks, partition_point, seed_of, add_seed, add_seeds_at, add_seeds,
  collect_seeds,
}
use mathlib.Core.Path.{subst}
use catenary_backend.Gentian.Profile.Forward.{
  follow, leave_at, leave, ride_on, expand, round, propagate, start_seed, search_seed, search_seeds,
  push, board, becomes_inactive, trip_info, no_labels, forward_fuel, range_indices, indices_from,
  ForwardSearch, forward_pass, done, out_of_fuel,
}
use catenary_backend.Gentian.Profile.Forward.Labels.{label_at}
use catenary_backend.Gentian.Profile.Arrivals.{
  best_walk, alight, try_trip, try_visit, best_trip, best_arrival, put, add_outcome, read_outcomes,
  mark_targets, profile_arrivals, add_departures, departures_at, departures_down, Profiles, last,
  add_arrival, update_profile, add_outcomes, run_departure, clear_profile, empty_profiles,
  run_trip_based_profile,
}
use catenary_backend.Gentian.Profile.Arrivals.Chronological.{
  IsChronological, run_trip_based_profile-IsChronological,
}
use catenary_backend.Schedules.Ranges.{dedup, dedup_after}
use catenary_backend.Gentian.Profile.Forward.Serves.{IsSorted}
use catenary_backend.Gentian.Profile.Forward.Ends.{forward_pass-ends}
use catenary_backend.Gentian.Profile.Forward.Sound.{IsNarrow, Reached, forward_pass-Reached}
use catenary_backend.Gentian.Profile.Forward.Complete.{IsOpen, IsEarliest, forward_pass-IsEarliest}

abbrev range : ℕ → ℕ → ℕ → TripRange
range p lo hi = record { pattern_idx = p; trip_idx = 0; start = lo; end = hi }

abbrev query : Query
query = record {
  partition = network;
  transfers = initial_transfers;
  trip_transfer_ranges = range 0 0 2 ∷ range 2 2 3 ∷ [];
  start_stop = 0;
  start_time = 50;
  targets = 3 ∷ [];
  stop_to_patterns = stop_index;
  flat_id_to_pattern_trip = (0, 0) ∷ (1, 0) ∷ (1, 1) ∷ (2, 0) ∷ [];
  pattern_trip_offset = 0 ∷ 1 ∷ 3 ∷ [];
  max_transfers = 2;
  hubs = [];
  is_source_hub = true;
}

abbrev seed_at : ℕ → ℕ → ℕ → Seed
seed_at time p stop = record {
  dep_time = time;
  pattern_idx = p;
  trip_idx = 0;
  stop_idx = stop;
  walk_duration = 0;
  stop_id = 0;
}

abbrev query_seeds : List Seed
query_seeds = seed_at 1530 2 2 ∷ seed_at 100 0 0 ∷ []

abbrev unset : ℕ
unset = u32_max

abbrev answer : ForwardSearch
answer = record {
  r_labels =
      (0 ∷ unset ∷ unset ∷ 2 ∷ [])
      ∷ (unset ∷ 0 ∷ unset ∷ 0 ∷ [])
      ∷ (unset ∷ unset ∷ 0 ∷ unset ∷ [])
      ∷ [];
  stack = [];
  active = 0;
}

query_answered : forward_pass query query_seeds ≡ done answer
unfolding forward_pass search_seeds search_seed start_seed propagate round expand ride_on leave
    leave_at follow board push trip_info becomes_inactive range_indices indices_from pattern_stops
    no_labels forward_fuel get_flat_id find?
query_answered = refl

query_fits :
    (k : ℕ) (tr : Transfer)
    → get_elem? initial_transfers k ≡ some tr
    → (tr.from_stop_idx_in_pattern < u16_mod) × (tr.to_stop_idx_in_pattern < u16_mod)
query_fits zero tr e =
    subst (λ x. (x.from_stop_idx_in_pattern < u16_mod) × (x.to_stop_idx_in_pattern < u16_mod))
      (some-injective e) (omega arith, omega arith)
query_fits (suc zero) tr e =
    subst (λ x. (x.from_stop_idx_in_pattern < u16_mod) × (x.to_stop_idx_in_pattern < u16_mod))
      (some-injective e) (omega arith, omega arith)
query_fits (suc (suc zero)) tr e =
    subst (λ x. (x.from_stop_idx_in_pattern < u16_mod) × (x.to_stop_idx_in_pattern < u16_mod))
      (some-injective e) (omega arith, omega arith)
query_fits (suc (suc (suc k))) tr e = absurd (ground arith)

query-IsNarrow : IsNarrow query query_seeds
query-IsNarrow = record {
  transfer_fits = query_fits;
  seed_fits = λ seed m. elim m [
    | inl e ↦ omega (arith, ap (λ x. x.stop_idx) e)
    | inr (inl e) ↦ omega (arith, ap (λ x. x.stop_idx) e)
    | inr (inr m) ↦ absurd m
  ];
}

query-IsSorted :
    (f : ℕ) (stops all : List ℕ) → trip_info query f ≡ some (stops, all) → IsSorted query all
unfolding trip_info range_indices indices_from pattern_stops IsSorted find?
query-IsSorted zero stops all e =
    subst (λ (x : List ℕ × List ℕ). IsSorted query x.1) (some-injective e)
      (
        (λ j tr tr' m here there. elim m [
          | inl at ↦ omega (
            arith,
            ap (λ x. x.from_stop_idx_in_pattern) (some-injective here),
            ap (λ x. x.from_stop_idx_in_pattern)
                (some-injective (subst (λ x. get_elem? initial_transfers x ≡ some tr') at there)),
          )
          | inr m ↦ absurd m
        ]),
        ((λ j tr tr' m. absurd m), tt),
      )
query-IsSorted (suc zero) stops all e =
    subst (λ (x : List ℕ × List ℕ). IsSorted query x.1) (some-injective e) tt
query-IsSorted (suc (suc zero)) stops all e =
    subst (λ (x : List ℕ × List ℕ). IsSorted query x.1) (some-injective e) tt
query-IsSorted (suc (suc (suc zero))) stops all e =
    subst (λ (x : List ℕ × List ℕ). IsSorted query x.1) (some-injective e)
      (λ j tr tr' m. absurd m, tt)
query-IsSorted (suc (suc (suc (suc f)))) stops all e = absurd (ground arith)

query-IsOpen : IsOpen query
unfolding becomes_inactive
query-IsOpen = record { never = λ stop. refl; sorted = query-IsSorted }

forward_pass-ends_example : forward_pass query query_seeds ≢ out_of_fuel
forward_pass-ends_example = forward_pass-ends query query_seeds

forward_pass-Reached_example :
    (label_at answer 1 1 ≡ u32_max) ⊎ Reached query query_seeds 1 1 (idx_of (label_at answer 1 1))
forward_pass-Reached_example =
    forward_pass-Reached query query_seeds query-IsNarrow query_answered 1 1

forward_pass-IsEarliest_example :
    ((label_at answer 2 2 ≡ u32_max) × ((i : ℕ) → ¬ Reached query query_seeds 2 2 i))
    ⊎ IsEarliest query query_seeds 2 2 (idx_of (label_at answer 2 2))
forward_pass-IsEarliest_example =
    forward_pass-IsEarliest query query_seeds query-IsNarrow query-IsOpen query_answered 2 2

abbrev query_from_b : Query
query_from_b = record query { start_stop = 1 }

-- From B the trips leave at 430, 980, 1000 and 2000, and D is reached at 1600 and 2600.
abbrev profiles_found : Profiles
profiles_found = (3, (1000, 1600) ∷ (2000, 2600) ∷ []) ∷ []

profiles_computed : run_trip_based_profile query_from_b ≡ some profiles_found
unfolding run_trip_based_profile departures_at add_departures departures_down run_departure
    add_outcomes update_profile add_arrival last empty_profiles clear_profile profile_arrivals
    mark_targets read_outcomes add_outcome put best_arrival best_trip try_visit try_trip alight
    best_walk dedup dedup_after collect_seeds add_seeds add_seeds_at add_seed seed_of
    partition_point initial_walks walks_from sort_by forward_pass search_seeds search_seed
    start_seed propagate round expand ride_on leave leave_at follow board push trip_info
    becomes_inactive range_indices indices_from pattern_stops no_labels forward_fuel get_flat_id
    find? get_departure_time get_arrival_time arrival_loop arrival_round add_delta for_each
    for_range enumerate store_at add32 sub32 saturating_add32
profiles_computed = refl

run_trip_based_profile-IsChronological_example : IsChronological ((1000, 1600) ∷ (2000, 2600) ∷ [])
run_trip_based_profile-IsChronological_example =
    run_trip_based_profile-IsChronological query_from_b profiles_computed
      (3, (1000, 1600) ∷ (2000, 2600) ∷ []) (inl refl)
