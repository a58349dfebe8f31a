-- ===== src/Gentian/UTurn.antt =====
-- `remove_u_turn_transfers` of src/gentian/trip_based.rs.
pub mod Laws
use catenary_backend.Common.{
  ℕ, ◌+◌, ◌-◌, ◌≤◌, ◌≡◌, ◌≢◌, refl, sym, ap, ◌⊎◌, inl, inr, Bool, true, false, not, ◌&&◌, Option,
  none, some, List, [], ◌∷◌, ltb, leb, ◌==◌, if◌then◌else◌, ◌>>=◌, >>=-eq-some, some-injective,
  Bool-cases, length, get_elem?, find?, unwrap_or, map_option, In, arith, ==_iff,
}
use catenary_backend.Common.Words.{add32}
use catenary_backend.Transit.{TransitPartition, StaticTransfer}
use catenary_backend.Gentian.Times.{get_arrival_time, get_departure_time}
use catenary_backend.Gentian.Index.{pattern_stops}
use catenary_backend.Gentian.Transfers.{Transfer}

-- The duration of the self transfer at a stop, or 0.
unfoldable pub change_time_at : TransitPartition → ℕ → ℕ
change_time_at partition stop =
    unwrap_or
      (map_option (λ t. t.duration_seconds)
        (find? (λ t. t.from_stop_idx == stop && t.to_stop_idx == stop)
          partition.internal_transfers))
      0

-- The last test of the closure, once the stops before and after the transfer are the same: whether
-- the change could not be made there already.
unfoldable pub too_late : TransitPartition → Transfer → ℕ → Option Bool
too_late partition tr stop = do
  from_pattern ← get_elem? partition.trip_patterns tr.from_pattern_idx
  to_pattern ← get_elem? partition.trip_patterns tr.to_pattern_idx
  t_trip ← get_elem? from_pattern.trips tr.from_trip_idx
  u_trip ← get_elem? to_pattern.trips tr.to_trip_idx
  arr_t_prev ← get_arrival_time partition t_trip (tr.from_stop_idx_in_pattern - 1)
  dep_u_next ← get_departure_time partition u_trip (tr.to_stop_idx_in_pattern + 1)
  some (not (leb (add32 arr_t_prev (change_time_at partition stop)) dep_u_next))

-- The closure given to `retain`.
unfoldable pub is_kept : TransitPartition → Transfer → Option Bool
is_kept partition tr = if tr.from_stop_idx_in_pattern == 0 then some true else do
  from_pattern ← get_elem? partition.trip_patterns tr.from_pattern_idx
  from_stops ← pattern_stops partition from_pattern
  prev_stop ← get_elem? from_stops (tr.from_stop_idx_in_pattern - 1)
  to_pattern ← get_elem? partition.trip_patterns tr.to_pattern_idx
  to_stops ← pattern_stops partition to_pattern
  if leb (length to_stops) (tr.to_stop_idx_in_pattern + 1) then some true else do
    next_stop ← get_elem? to_stops (tr.to_stop_idx_in_pattern + 1)
    if prev_stop == next_stop then too_late partition tr prev_stop else some true

-- transfers.retain(…)
unfoldable pub remove_u_turn_transfers : TransitPartition → List Transfer → Option (List Transfer)
remove_u_turn_transfers partition [] = some []
remove_u_turn_transfers partition (tr ∷ transfers) = do
  keep ← is_kept partition tr
  rest ← remove_u_turn_transfers partition transfers
  some (if keep then tr ∷ rest else rest)
