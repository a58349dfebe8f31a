-- ===== src/Gentian/Index.antt =====
-- `build_stop_to_patterns` and `build_footpaths` of src/gentian/trip_based.rs.
pub mod Laws
use catenary_backend.Common.{
  ℕ, zero, suc, ◌+◌, Option, none, some, List, [], ◌∷◌, ◌++◌, ltb, ◌==◌, if◌then◌else◌, ◌>>=◌,
  length, get_elem?, set, replicate,
}
use catenary_backend.Common.Loops.{for_each, enumerate}
use catenary_backend.Transit.{TransitPartition, TripPattern, StaticTransfer}

-- v[i].push(x)
unfoldable pub push_at : {A : Type 0} → List (List A) → ℕ → A → Option (List (List A))
push_at [] i x = none
push_at (row ∷ rows) zero x = some ((row ++ x ∷ []) ∷ rows)
push_at (row ∷ rows) (suc i) x = push_at rows i x >>= λ rest. some (row ∷ rest)

-- v[i] = x
unfoldable pub store_at : {A : Type 0} → List A → ℕ → A → Option (List A)
store_at v i x = if ltb i (length v) then some (set v i x) else none

-- The stops of a pattern, `partition.direction_patterns[…].stop_indices`.
unfoldable pub pattern_stops : TransitPartition → TripPattern → Option (List ℕ)
pattern_stops partition pattern = do
  direction ← get_elem? partition.direction_patterns pattern.direction_pattern_idx
  some direction.stop_indices

abbrev pub StopIndex : Type 0
StopIndex = List (List (ℕ × ℕ))

-- The body of the outer loop: `p_idx` visits each of its stops.
unfoldable pub index_pattern : TransitPartition → ℕ × TripPattern → StopIndex → Option StopIndex
index_pattern partition (p_idx, pattern) index = do
  stops ← pattern_stops partition pattern
  for_each (λ visit rows. push_at rows visit.1 (p_idx, visit.0)) (enumerate 0 stops) index

unfoldable pub build_stop_to_patterns : TransitPartition → Option StopIndex
build_stop_to_patterns partition =
    for_each (index_pattern partition) (enumerate 0 partition.trip_patterns)
      (replicate (length partition.stops) [])

-- The footpaths out of each stop, as (stop reached, seconds), and the change time at each stop.
pub record Footpaths : Type 0 where
  pub footpaths : List (List (ℕ × ℕ))
  pub change_times : List ℕ

-- The body of the loop over `partition.internal_transfers`.
unfoldable pub add_transfer : StaticTransfer → Footpaths → Option Footpaths
add_transfer transfer f =
    if transfer.from_stop_idx == transfer.to_stop_idx
    then (do
      times ← store_at f.change_times transfer.from_stop_idx transfer.duration_seconds
      some (record f { change_times = times }))
    else (do
      paths ←
          push_at f.footpaths transfer.from_stop_idx
            (transfer.to_stop_idx, transfer.duration_seconds)
      some (record f { footpaths = paths }))

-- The loop that adds the self loops, for i in i..i + rows.len().
unfoldable pub add_self_loops : ℕ → List (List (ℕ × ℕ)) → List ℕ → Option (List (List (ℕ × ℕ)))
add_self_loops i [] times = some []
add_self_loops i (row ∷ rows) [] = none
add_self_loops i (row ∷ rows) (time ∷ times) = do
  rest ← add_self_loops (i + 1) rows times
  some ((row ++ (i, time) ∷ []) ∷ rest)

unfoldable pub build_footpaths : TransitPartition → Option Footpaths
build_footpaths partition = do
  let n = length partition.stops
  f ←
      for_each add_transfer partition.internal_transfers
        (record { footpaths = replicate n []; change_times = replicate n 0 })
  paths ← add_self_loops 0 f.footpaths f.change_times
  some (record f { footpaths = paths })
