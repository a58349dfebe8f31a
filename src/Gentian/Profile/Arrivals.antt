-- ===== src/Gentian/Profile/Arrivals.antt =====
-- The answer of `compute_profile_query` of src/gentian/trip_based.rs: the earliest arrival at each
-- target, read off the labels of the forward pass; and `run_trip_based_profile`, which asks for each
-- departure. (Of the query, the result edges that it collects for other callers are left out.)
pub mod Chronological
pub mod Earliest
use mathlib.Core.List.{reverse}
use catenary_backend.Common.{
  ℕ, zero, suc, ◌+◌, Bool, true, false, Option, none, some, List, [], ◌∷◌, ◌++◌, ltb, leb, ◌==◌,
  if◌then◌else◌, map, ◌>>=◌, length, get_elem?, replicate,
}
use catenary_backend.Common.Words.{saturating_add32, u32_max}
use catenary_backend.Common.Loops.{for_each, enumerate}
use catenary_backend.Common.Sorting.{sort_by}
use catenary_backend.Transit.{CompressedTrip}
use catenary_backend.Gentian.Times.{get_arrival_time, get_departure_time}
use catenary_backend.Gentian.Index.{store_at}
use catenary_backend.Gentian.Profile.{Query, idx_of, is_inactive}
use catenary_backend.Gentian.Profile.Seeds.{initial_walks, collect_seeds}
use catenary_backend.Gentian.Profile.Forward.{
  ForwardSearch, Outcome, done, panicked, out_of_fuel, indices_from, forward_pass,
}
use catenary_backend.Schedules.Ranges.{dedup}

-- if arr < best_arr { best_arr = arr }
abbrev pub lower : ℕ → ℕ → ℕ
lower best arr = if ltb arr best then arr else best

-- The loop over the walks.
unfoldable pub best_walk : Query → ℕ → List (ℕ × ℕ) → ℕ → ℕ
best_walk q target_stop [] best = best
best_walk q target_stop ((s, d) ∷ walks) best =
    best_walk q target_stop walks
      (if s == target_stop then lower best (saturating_add32 q.start_time d) else best)

module _ (q : Query) (r_labels : List (List ℕ)) where
  -- A trip with the label `raw_entry`: one boarded before the stop arrives there.
  unfoldable pub alight : CompressedTrip → ℕ → ℕ → ℕ → Option ℕ
  alight trip target_s_idx raw_entry best =
      if raw_entry == u32_max
      then some best
      else (if is_inactive raw_entry
          then some best
          else (if ltb (idx_of raw_entry) target_s_idx
              then (do arr ← get_arrival_time q.partition trip target_s_idx; some (lower best arr))
              else some best))

  unfoldable pub try_trip : ℕ → ℕ → ℕ → ℕ × CompressedTrip → ℕ → Option ℕ
  try_trip offset target_s_idx k (t_idx, trip) best = do
    level ← get_elem? r_labels k
    raw_entry ← get_elem? level (offset + t_idx)
    alight trip target_s_idx raw_entry best

  -- A pattern that serves the target, for each number of transfers.
  unfoldable pub try_visit : ℕ × ℕ → ℕ → Option ℕ
  try_visit (p_idx, target_s_idx) best = do
    pattern ← get_elem? q.partition.trip_patterns p_idx
    offset ← get_elem? q.pattern_trip_offset p_idx
    for_each (λ k. for_each (try_trip offset target_s_idx k) (enumerate 0 pattern.trips))
        (indices_from 0 (suc q.max_transfers)) best

  unfoldable pub best_trip : Option (List (ℕ × ℕ)) → ℕ → Option ℕ
  best_trip none best = some best
  best_trip (some patterns) best = for_each try_visit patterns best

  unfoldable pub best_arrival : ℕ → Option ℕ
  best_arrival target_stop =
      best_trip (get_elem? q.stop_to_patterns target_stop)
        (best_walk q target_stop (initial_walks q) u32_max)

-- min_durations.insert(target_stop, best_arr)
unfoldable pub put : ℕ → ℕ → List (ℕ × ℕ) → List (ℕ × ℕ)
put key value [] = (key, value) ∷ []
put key value (entry ∷ table) =
    let rest = put key value table in if entry.0 == key then (key, value) ∷ table else entry ∷ rest

unfoldable pub add_outcome : Query → ForwardSearch → ℕ → List (ℕ × ℕ) → Option (List (ℕ × ℕ))
add_outcome q s target_stop min_durations = do
  best ← best_arrival q s.r_labels target_stop
  some (if best == u32_max then min_durations else put target_stop best min_durations)

unfoldable pub read_outcomes : Query → Outcome → Option (List (ℕ × ℕ))
read_outcomes q (done s) = for_each (add_outcome q s) q.targets []
read_outcomes q panicked = none
read_outcomes q out_of_fuel = none

-- scratch.is_target[t as usize] = true
unfoldable pub mark_targets : Query → Option (List Bool)
mark_targets q =
    for_each (λ t is_target. store_at is_target t true) q.targets
      (replicate (length q.partition.stops) false)

unfoldable pub profile_arrivals : Query → Option (List (ℕ × ℕ))
profile_arrivals q = do
  is_target ← mark_targets q
  seeds ← collect_seeds q
  read_outcomes q (forward_pass q seeds)

-- The departures from the stop, in the order of the patterns.
unfoldable pub add_departures : Query → ℕ × ℕ → List ℕ → Option (List ℕ)
add_departures q (p_idx, s_idx) departures = do
  pattern ← get_elem? q.partition.trip_patterns p_idx
  for_each (λ trip ds. get_departure_time q.partition trip s_idx >>= λ dep. some (ds ++ dep ∷ []))
      pattern.trips departures

unfoldable pub departures_at : Query → Option (List (ℕ × ℕ)) → Option (List ℕ)
departures_at q none = some []
departures_at q (some patterns) = for_each (add_departures q) patterns []

-- The latest first, each once.
unfoldable pub departures_down : List ℕ → List ℕ
departures_down departures = dedup (sort_by (λ a b. leb b a) departures)

abbrev pub Profiles : Type 0
Profiles = List (ℕ × List (ℕ × ℕ))

-- entry.last()
unfoldable pub last : List (ℕ × ℕ) → Option (ℕ × ℕ)
last [] = none
last (x ∷ []) = some x
last (x ∷ y ∷ ys) = last (y ∷ ys)

-- An arrival is kept when it is earlier than the last that was stored.
abbrev pub is_improvement : ℕ → Option (ℕ × ℕ) → Bool
is_improvement arr none = true
is_improvement arr (some stored) = ltb arr stored.1

unfoldable pub add_arrival : ℕ → ℕ → List (ℕ × ℕ) → List (ℕ × ℕ)
add_arrival dep arr entry =
    if is_improvement arr (last entry) then entry ++ (dep, arr) ∷ [] else entry

-- pareto_results.entry(target_stop).or_default()
unfoldable pub update_profile : ℕ → ℕ → ℕ → Profiles → Profiles
update_profile target dep arr [] = (target, add_arrival dep arr []) ∷ []
update_profile target dep arr (entry ∷ table) =
    let rest = update_profile target dep arr table in
    if entry.0 == target then (target, add_arrival dep arr entry.1) ∷ table else entry ∷ rest

-- The loop over the outcomes of a departure.
unfoldable pub add_outcomes : ℕ → List (ℕ × ℕ) → Profiles → Profiles
add_outcomes dep [] results = results
add_outcomes dep ((target, arr) ∷ outcomes) results =
    add_outcomes dep outcomes
      (if arr == u32_max then results else update_profile target dep arr results)

unfoldable pub run_departure : Query → ℕ → Profiles → Option Profiles
run_departure q dep results = do
  outcomes ← profile_arrivals (record q { start_time = dep })
  some (add_outcomes dep outcomes results)

-- pareto_results.insert(t, Vec::new())
unfoldable pub clear_profile : ℕ → Profiles → Profiles
clear_profile t [] = (t, []) ∷ []
clear_profile t (entry ∷ table) =
    let rest = clear_profile t table in if entry.0 == t then (t, []) ∷ table else entry ∷ rest

unfoldable pub empty_profiles : List ℕ → Profiles → Profiles
empty_profiles [] table = table
empty_profiles (t ∷ targets) table = empty_profiles targets (clear_profile t table)

unfoldable pub run_trip_based_profile : Query → Option Profiles
run_trip_based_profile q = do
  departures ← departures_at q (get_elem? q.stop_to_patterns q.start_stop)
  results ← for_each (run_departure q) (departures_down departures) (empty_profiles q.targets [])
  some (map (λ (entry : ℕ × List (ℕ × ℕ)). (entry.0, reverse entry.1)) results)
