-- ===== src/Gentian/Profile/Arrivals/Earliest.antt =====
-- The arrivals that the query returns are the earliest of all journeys.
use catenary_backend.Common.{ℕ, ◌+◌, ◌≤◌, ◌<◌, ◌≡◌, ◌⊎◌, some, List, get_elem?, In}
use catenary_backend.Common.Words.{saturating_add32, u32_max}
use catenary_backend.Transit.{TripPattern, CompressedTrip}
use catenary_backend.Gentian.Times.{get_arrival_time}
use catenary_backend.Gentian.Profile.{Query, get_flat_id}
use catenary_backend.Gentian.Profile.Seeds.{Seed}
use catenary_backend.Gentian.Profile.Seeds.Laws.{Walk, Boarding}
use catenary_backend.Gentian.Transfers.{Transfer}
use catenary_backend.Gentian.Profile.Forward.Sound.{Link, Reached}

-- A trip of a pattern that serves the target at its stop j, after n changes ridden from stop i;
-- `Rides n f i` says that with n changes one can ride the trip with id f from stop i on.
pub record Ride (q : Query) (Rides : ℕ → ℕ → ℕ → Type 0) (target arr : ℕ) : Type 0 where
  pub patterns : List (ℕ × ℕ)
  pub p : ℕ
  pub j : ℕ
  pub pattern : TripPattern
  pub offset : ℕ
  pub t : ℕ
  pub trip : CompressedTrip
  pub n : ℕ
  pub i : ℕ
  pub visits : get_elem? q.stop_to_patterns target ≡ some patterns
  pub visit : In {A = ℕ × ℕ} (p, j) patterns
  pub its_pattern : get_elem? q.partition.trip_patterns p ≡ some pattern
  pub its_offset : get_elem? q.pattern_trip_offset p ≡ some offset
  pub its_trip : get_elem? pattern.trips t ≡ some trip
  pub few : n ≤ q.max_transfers
  pub reached : Rides n (offset + t) i
  pub earlier : i < j
  pub arrives : get_arrival_time q.partition trip j ≡ some arr

-- The journeys to the target, by their arrivals: a walk from the start, or trips with at most the
-- changes allowed, of which the last calls at the target. (A walk after the last trip is not one.)
pub data Journey (q : Query) (Rides : ℕ → ℕ → ℕ → Type 0) (target : ℕ) : ℕ → Type 0 where
  on_foot : (d : ℕ) → Walk q target d → Journey q Rides target (saturating_add32 q.start_time d)
  by_trip : (arr : ℕ) → Ride q Rides target arr → Journey q Rides target arr

module _ (q : Query) (seeds : List Seed) (target : ℕ) where
  -- The best so far is a journey's arrival, or there is none.
  unfoldable pub Found : ℕ → Type 0
  Found best = (best ≡ u32_max) ⊎ Journey q (Reached q seeds) target best

-- With n changes a journey can ride the trip with id f from its stop i on: it boards the first trip
-- there after a walk from the start, or changes to it by a transfer from a later stop of a trip that
-- it rides.
pub data Rides (q : Query) : ℕ → ℕ → ℕ → Type 0 where
  boards : (p t i : ℕ) (f : ℕ) → Boarding q p t i → get_flat_id q p t ≡ some f → Rides q 0 f i
  changes :
      (n f i : ℕ) (tr : Transfer) (f' : ℕ)
      → Rides q n f i
      → Link q n f tr f'
      → i ≤ tr.from_stop_idx_in_pattern
      → Rides q (n + 1) f' tr.to_stop_idx_in_pattern
