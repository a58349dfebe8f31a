-- ===== src/Gentian/Profile.antt =====
-- `compute_profile_query` of src/gentian/trip_based.rs: what the query reads, and the labels of its
-- search. A label is a stop index with a flag in the highest bit, or `u32::MAX` for none.
pub mod Seeds
pub mod Forward
pub mod Arrivals
mod Examples
use catenary_backend.Common.{
  ℕ, ◌+◌, ◌%◌, Bool, Option, some, List, [], ◌∷◌, ◌==◌, leb, if◌then◌else◌, ◌&&◌, ◌>>=◌, get_elem?,
  any,
}
use catenary_backend.Transit.{TransitPartition}
use catenary_backend.Gentian.Index.{StopIndex}
use catenary_backend.Gentian.Transfers.{Transfer}

-- A range of `transfers` for a pattern and a trip of it.
pub record TripRange : Type 0 where
  pub pattern_idx : ℕ
  pub trip_idx : ℕ
  pub start : ℕ
  pub end : ℕ

-- The arguments of the query, but for the buffers; `hubs` is a set, and a map is a list.
pub record Query : Type 0 where
  pub partition : TransitPartition
  pub transfers : List Transfer
  pub trip_transfer_ranges : List TripRange
  pub start_stop : ℕ
  pub start_time : ℕ
  pub targets : List ℕ
  pub stop_to_patterns : StopIndex
  pub flat_id_to_pattern_trip : List (ℕ × ℕ)
  pub pattern_trip_offset : List ℕ
  pub max_transfers : ℕ
  pub hubs : List ℕ
  pub is_source_hub : Bool

abbrev pub inactive_mask : ℕ
inactive_mask = 0x8000_0000

-- label & IDX_MASK
abbrev pub idx_of : ℕ → ℕ
idx_of label = label % inactive_mask

-- (label & INACTIVE_MASK) != 0, for a label of 32 bits
abbrev pub is_inactive : ℕ → Bool
is_inactive label = leb inactive_mask label

-- label | INACTIVE_MASK
abbrev pub mark_inactive : ℕ → ℕ
mark_inactive label = if is_inactive label then label else label + inactive_mask

-- get_flat_id(p, t)
unfoldable pub get_flat_id : Query → ℕ → ℕ → Option ℕ
get_flat_id q p t = do offset ← get_elem? q.pattern_trip_offset p; some (offset + t)

-- hubs.contains(&stop)
unfoldable pub is_hub : Query → ℕ → Bool
is_hub q stop = any (λ hub. hub == stop) q.hubs
