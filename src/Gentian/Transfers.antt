-- ===== src/Gentian/Transfers.antt =====
-- The candidate transfers out of a trip, in `compute_initial_transfers` of
-- src/gentian/trip_based.rs: every trip that can be boarded after a walk from one of its stops.
pub mod Laws
use catenary_backend.Common.{
  ℕ, zero, suc, ◌+◌, ◌%◌, Bool, true, false, ◌&&◌, ◌||◌, not, Option, none, some, List, [], ◌∷◌,
  ◌++◌, ltb, leb, ◌==◌, if◌then◌else◌, ◌>>=◌, length, get_elem?, any,
}
use catenary_backend.Common.Words.{add32, u16_mod}
use catenary_backend.Common.Loops.{for_each, enumerate}
use catenary_backend.Transit.{TransitPartition}
use catenary_backend.Gentian.Index.{StopIndex, pattern_stops}
use catenary_backend.Gentian.Earliest.{earliest_trip}

pub record Transfer : Type 0 where
  pub from_pattern_idx : ℕ
  pub from_trip_idx : ℕ
  pub from_stop_idx_in_pattern : ℕ  -- u16
  pub to_pattern_idx : ℕ
  pub to_trip_idx : ℕ
  pub to_stop_idx_in_pattern : ℕ  -- u16
  pub duration : ℕ

-- The key of `seen_targets`: a pattern, a trip and a stop of the pattern.
pub record Target : Type 0 where
  pub pattern_idx : ℕ
  pub trip_idx : ℕ
  pub stop_idx : ℕ

abbrev pub same_target : Target → Target → Bool
same_target a b =
    a.pattern_idx == b.pattern_idx && (a.trip_idx == b.trip_idx && a.stop_idx == b.stop_idx)

-- `seen_targets` and `trip_transfers`.
pub record Candidates : Type 0 where
  pub seen : List Target
  pub found : List Transfer

-- Where a transfer starts: the pattern, the trip, and the stop `i` in the pattern.
pub record Source : Type 0 where
  pub p_idx : ℕ
  pub t_idx : ℕ
  pub i : ℕ

-- A transfer within one pattern must reach an earlier trip or an earlier stop.
unfoldable pub is_valid : Source → Target → Bool
is_valid source target =
    if target.pattern_idx == source.p_idx
    then ltb target.trip_idx source.t_idx || ltb target.stop_idx source.i
    else true

abbrev pub make_transfer : Source → Target → ℕ → Transfer
make_transfer source target walk_time = record {
  from_pattern_idx = source.p_idx;
  from_trip_idx = source.t_idx;
  from_stop_idx_in_pattern = source.i % u16_mod;
  to_pattern_idx = target.pattern_idx;
  to_trip_idx = target.trip_idx;
  to_stop_idx_in_pattern = target.stop_idx % u16_mod;
  duration = walk_time;
}

-- The end of the innermost loop's body, once a trip is found: last stops, transfers that are not
-- valid and targets that were seen are passed over.
unfoldable pub offer : Source → Target → ℕ → ℕ → Candidates → Candidates
offer source target num_stops walk_time c =
    if target.stop_idx + 1 == num_stops
    then c
    else if not (is_valid source target)
    then c
    else if any (same_target target) c.seen
    then c
    else record {
      seen = target ∷ c.seen;
      found = c.found ++ make_transfer source target walk_time ∷ [];
    }

-- The body of the loop over `patterns_at_q`.
unfoldable pub try_pattern :
    TransitPartition → Source → ℕ → ℕ → ℕ × ℕ → Candidates → Option Candidates
try_pattern partition source walk_time min_dep_time (cand_pattern_idx, cand_stop_idx) c = do
  pattern ← get_elem? partition.trip_patterns cand_pattern_idx
  lo ← earliest_trip partition pattern.trips cand_stop_idx min_dep_time
  if leb (length pattern.trips) lo then some c else do
    stops ← pattern_stops partition pattern
    some (
        offer source
          (record { pattern_idx = cand_pattern_idx; trip_idx = lo; stop_idx = cand_stop_idx })
          (length stops) walk_time c)

-- if let Some(patterns_at_q) = stop_to_patterns.get(…)
unfoldable pub try_patterns :
    TransitPartition → Source → ℕ → ℕ → Option (List (ℕ × ℕ)) → Candidates → Option Candidates
try_patterns partition source walk_time min_dep_time none c = some c
try_patterns partition source walk_time min_dep_time (some patterns_at_q) c =
    for_each (try_pattern partition source walk_time min_dep_time) patterns_at_q c

-- The body of the loop over `reachable_stops`.
unfoldable pub try_footpath :
    TransitPartition → StopIndex → Source → ℕ → ℕ × ℕ → Candidates → Option Candidates
try_footpath partition stop_to_patterns source arrival_time (q, walk_time) c =
    try_patterns partition source walk_time (add32 arrival_time walk_time)
      (get_elem? stop_to_patterns q) c

-- if let Some(reachable_stops) = footpaths.get(…), with `seen_targets` cleared.
unfoldable pub try_footpaths :
    TransitPartition
    → StopIndex
    → Source
    → ℕ
    → Option (List (ℕ × ℕ))
    → List Transfer
    → Option Candidates
try_footpaths partition stop_to_patterns source arrival_time none found =
    some (record { seen = []; found = found })
try_footpaths partition stop_to_patterns source arrival_time (some reachable_stops) found =
    for_each (try_footpath partition stop_to_patterns source arrival_time) reachable_stops
      (record { seen = []; found = found })

-- The body of the loop over the stops of the trip.
unfoldable pub try_stop :
    TransitPartition
    → StopIndex
    → List (List (ℕ × ℕ))
    → List ℕ
    → ℕ
    → ℕ
    → ℕ × ℕ
    → List Transfer
    → Option (List Transfer)
try_stop partition stop_to_patterns footpaths trip_arrivals p_idx t_idx (i, stop_idx) found =
    if i == 0 then some found else do
      arrival_time ← get_elem? trip_arrivals i
      c ←
          try_footpaths partition stop_to_patterns (record { p_idx = p_idx; t_idx = t_idx; i = i })
            arrival_time (get_elem? footpaths stop_idx) found
      some c.found

-- The candidates of one trip, over all its stops.
unfoldable pub trip_candidates :
    TransitPartition
    → StopIndex
    → List (List (ℕ × ℕ))
    → List ℕ
    → ℕ
    → ℕ
    → List ℕ
    → Option (List Transfer)
trip_candidates partition stop_to_patterns footpaths trip_arrivals p_idx t_idx stop_indices =
    for_each (try_stop partition stop_to_patterns footpaths trip_arrivals p_idx t_idx)
      (enumerate 0 stop_indices) []
