-- ===== src/Gentian/Profile/Seeds.antt =====
-- The departures that a query starts with, in `compute_profile_query` of src/gentian/trip_based.rs.
pub mod Laws
use catenary_backend.Common.{
  ℕ, ◌+◌, Option, none, some, List, [], ◌∷◌, ◌++◌, ltb, leb, ◌==◌, if◌then◌else◌, ◌>>=◌, get_elem?,
}
use catenary_backend.Common.Words.{add32, sub32}
use catenary_backend.Common.Loops.{for_each}
use catenary_backend.Common.Sorting.{sort_by}
use catenary_backend.Transit.{TransitPartition, CompressedTrip, StaticTransfer}
use catenary_backend.Gentian.Times.{get_departure_time}
use catenary_backend.Gentian.Profile.{Query}

pub record Seed : Type 0 where
  pub dep_time : ℕ
  pub pattern_idx : ℕ
  pub trip_idx : ℕ
  pub stop_idx : ℕ
  pub walk_duration : ℕ
  pub stop_id : ℕ

-- The walks out of `start_stop`, with the seconds that they take.
unfoldable pub walks_from : ℕ → List StaticTransfer → List (ℕ × ℕ)
walks_from start_stop [] = []
walks_from start_stop (tr ∷ transfers) =
    let rest = walks_from start_stop transfers in
    if tr.from_stop_idx == start_stop then (tr.to_stop_idx, tr.duration_seconds) ∷ rest else rest

unfoldable pub initial_walks : Query → List (ℕ × ℕ)
initial_walks q = (q.start_stop, 0) ∷ walks_from q.start_stop q.partition.internal_transfers

-- `partition_point`: the first trip that does not leave before `min_dep`, counting from `t`. (The
-- library searches by halves, and promises this index where the trips leave in order.)
unfoldable pub partition_point : TransitPartition → ℕ → ℕ → ℕ → List CompressedTrip → Option ℕ
partition_point partition s_idx min_dep t [] = some t
partition_point partition s_idx min_dep t (trip ∷ trips) = do
  dep ← get_departure_time partition trip s_idx
  later ← partition_point partition s_idx min_dep (t + 1) trips
  some (if ltb dep min_dep then later else t)

-- The seed of the trip found, when the pattern has one.
unfoldable pub seed_of : Query → ℕ × ℕ → ℕ × ℕ → ℕ → Option CompressedTrip → Option (List Seed)
seed_of q (stop_id, walk_dur) (p_idx, s_idx) t_idx none = some []
seed_of q (stop_id, walk_dur) (p_idx, s_idx) t_idx (some trip) = do
  dep ← get_departure_time q.partition trip s_idx
  some (
      record {
        dep_time = sub32 dep walk_dur;
        pattern_idx = p_idx;
        trip_idx = t_idx;
        stop_idx = s_idx;
        walk_duration = walk_dur;
        stop_id = stop_id;
      }
      ∷ [])

-- The body of the loop over the patterns of a stop.
unfoldable pub add_seed : Query → ℕ × ℕ → ℕ × ℕ → List Seed → Option (List Seed)
add_seed q walk (p_idx, s_idx) seeds = do
  pattern ← get_elem? q.partition.trip_patterns p_idx
  t_idx ← partition_point q.partition s_idx (add32 q.start_time walk.1) 0 pattern.trips
  found ← seed_of q walk (p_idx, s_idx) t_idx (get_elem? pattern.trips t_idx)
  some (seeds ++ found)

-- if let Some(patterns) = stop_to_patterns.get(stop_id)
unfoldable pub add_seeds_at : Query → ℕ × ℕ → Option (List (ℕ × ℕ)) → List Seed → Option (List Seed)
add_seeds_at q walk none seeds = some seeds
add_seeds_at q walk (some patterns) seeds = for_each (add_seed q walk) patterns seeds

unfoldable pub add_seeds : Query → ℕ × ℕ → List Seed → Option (List Seed)
add_seeds q walk seeds = add_seeds_at q walk (get_elem? q.stop_to_patterns walk.0) seeds

-- The seeds, the latest departure first.
unfoldable pub collect_seeds : Query → Option (List Seed)
collect_seeds q = do
  seeds ← for_each (add_seeds q) (initial_walks q) []
  some (sort_by (λ a b. leb b.dep_time a.dep_time) seeds)
