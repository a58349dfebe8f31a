-- ===== src/Gentian/Pareto.antt =====
-- The Pareto frontier of a target stop, in `compute_profile_query` of src/gentian/trip_based.rs:
-- labels of few transfers, early arrival and, where it counts, no hub on the way.
pub mod Laws
use catenary_backend.Common.{
  ℕ, Bool, true, false, not, ◌&&◌, ◌||◌, List, [], ◌∷◌, ◌++◌, leb, if◌then◌else◌, any, filter,
}

-- An entry of `best_arrivals[stop]`: transfers, arrival time, and whether a hub was passed.
pub record Label : Type 0 where
  pub n : ℕ
  pub time : ℕ
  pub inactive : Bool

-- The test of both loops: `a` has no more transfers, arrives no later, and is active unless `b` is
-- inactive too.
unfoldable pub dominates : Label → Label → Bool
dominates a b = (leb a.n b.n && leb a.time b.time) && (not a.inactive || b.inactive)

-- A new label is passed over when an existing one dominates it; else those that it dominates go.
unfoldable pub update_frontier : Label → List Label → List Label
update_frontier new frontier =
    if any (λ existing. dominates existing new) frontier
    then frontier
    else filter (λ existing. not (dominates new existing)) frontier ++ new ∷ []

-- The labels of a stop, in the order in which the trips reach it.
unfoldable pub frontier_of : List Label → List Label → List Label
frontier_of [] frontier = frontier
frontier_of (label ∷ labels) frontier = frontier_of labels (update_frontier label frontier)
