-- ===== src/Gentian/Refine.antt =====
-- `refine_transfers_for_trip` of src/gentian/trip_based.rs: the stops of a trip are walked backward
-- with the earliest arrivals known, and a transfer that improves none of them is removed.
pub mod Laws
pub mod Covers
pub mod Survive
pub mod Kept
pub mod Visited
pub mod Served
use catenary_backend.Common.{
  ℕ, zero, suc, ◌+◌, ◌-◌, ◌*◌, Bool, true, false, ◌&&◌, ◌||◌, not, Option, none, some, List, [],
  ◌∷◌, ◌++◌, ltb, leb, ◌==◌, if◌then◌else◌, ◌>>=◌, length, get_elem?, set, drop,
}
use mathlib.Core.List.{reverse}
use catenary_backend.Common.Words.{add32, saturating_add32, u32_max}
use catenary_backend.Common.Loops.{for_each, enumerate}
use catenary_backend.Common.Sorting.{sort_by}
use catenary_backend.Transit.{TransitPartition, CompressedTrip, TimeDeltaSequence}
use catenary_backend.Gentian.Times.{add_delta, arrival_loop, trip_arrivals}
use catenary_backend.Gentian.Index.{pattern_stops, store_at}
use catenary_backend.Gentian.Transfers.{Transfer}

-- The earliest arrivals and changes known for each stop, and the stops that have one.
pub record Tau : Type 0 where
  pub tau_a : List ℕ
  pub tau_c : List ℕ
  pub visited : List ℕ

-- if tau_a[s] == u32::MAX && tau_c[s] == u32::MAX { visited.push(s) }
abbrev pub visit : ℕ → ℕ → ℕ → List ℕ → List ℕ
visit a c stop visited = if a == u32_max && c == u32_max then visited ++ stop ∷ [] else visited

-- if arr_time < tau_a[stop_idx], for `a` and `c` the times read there.
unfoldable pub lower_arrival : ℕ → ℕ → ℕ → ℕ → Tau → Tau
lower_arrival stop arr_time a c tau =
    if ltb arr_time a
    then record tau { tau_a = set tau.tau_a stop arr_time; visited = visit a c stop tau.visited }
    else tau

-- if c_time < tau_c[stop_idx]
unfoldable pub lower_change : ℕ → ℕ → ℕ → ℕ → Tau → Tau
lower_change stop c_time a c tau =
    if ltb c_time c
    then record tau { tau_c = set tau.tau_c stop c_time; visited = visit a c stop tau.visited }
    else tau

-- The closure `update_tau`; the flag says whether a time improved.
unfoldable pub update_tau : List ℕ → ℕ → ℕ → Tau → Option (Tau × Bool)
update_tau change_times stop arr_time tau = do
  a ← get_elem? tau.tau_a stop
  c ← get_elem? tau.tau_c stop
  change ← get_elem? change_times stop
  let arrived = lower_arrival stop arr_time a c tau
  let a_now = if ltb arr_time a then arr_time else a
  let c_time = saturating_add32 arr_time change
  some (lower_change stop c_time a_now c arrived, ltb arr_time a || ltb c_time c)

-- The loop over the footpaths out of a stop; the flag says whether any time improved.
unfoldable pub relax_footpath : List ℕ → ℕ → ℕ × ℕ → Tau × Bool → Option (Tau × Bool)
relax_footpath change_times arr_time (neighbor, walk) (tau, improved) = do
  (tau', better) ← update_tau change_times neighbor (add32 arr_time walk) tau
  some (tau', improved || better)

unfoldable pub relax_footpaths : List ℕ → List (List (ℕ × ℕ)) → ℕ → ℕ → Tau → Option (Tau × Bool)
relax_footpaths change_times footpaths stop arr_time tau = do
  paths ← get_elem? footpaths stop
  for_each (relax_footpath change_times arr_time) paths (tau, false)

-- An arrival at a stop, carried on along its footpaths when it improves a time there.
unfoldable pub arrive : List ℕ → List (List (ℕ × ℕ)) → ℕ → ℕ → Tau → Option (Tau × Bool)
arrive change_times footpaths stop arr_time tau = do
  (tau', improved) ← update_tau change_times stop arr_time tau
  if improved
      then (do
        (tau'', _) ← relax_footpaths change_times footpaths stop arr_time tau'
        some (tau'', true))
      else some (tau', false)

-- The loop over the stops that the boarded trip reaches, from stop `k` of its pattern on.
unfoldable pub ride :
    List ℕ → List (List (ℕ × ℕ)) → List ℕ → ℕ → List ℕ → ℕ → Tau × Bool → Option (Tau × Bool)
ride change_times footpaths deltas k [] u_time state = some state
ride change_times footpaths deltas k (u_stop ∷ rest) u_time (tau, useful) = do
  let u_arr_time = add_delta deltas (2 * k) u_time
  (tau', improved) ← arrive change_times footpaths u_stop u_arr_time tau
  ride change_times footpaths deltas (k + 1) rest (add_delta deltas (2 * k + 1) u_arr_time)
      (tau', useful || improved)

-- A transfer is tried by riding the trip that it boards; the flag is `transfer_useful`.
unfoldable pub try_transfer :
    TransitPartition → List ℕ → List (List (ℕ × ℕ)) → Transfer → Tau → Option (Tau × Bool)
try_transfer partition change_times footpaths tr tau = do
  pattern ← get_elem? partition.trip_patterns tr.to_pattern_idx
  trip ← get_elem? pattern.trips tr.to_trip_idx
  stops ← pattern_stops partition pattern
  delta_seq ← get_elem? partition.time_deltas trip.time_delta_idx
  let boarding = tr.to_stop_idx_in_pattern
  let u_current_time = arrival_loop delta_seq.deltas trip.start_time boarding
  let u_dep_time = add_delta delta_seq.deltas (2 * boarding + 1) u_current_time
  ride change_times footpaths delta_seq.deltas (boarding + 1) (drop (boarding + 1) stops) u_dep_time
      (tau, false)

-- `transfers[..tr_ptr]`, last first, and the survivors of `transfers[tr_ptr..]`, in order.
pub record Scan : Type 0 where
  pub tau : Tau
  pub pending : List Transfer
  pub kept : List Transfer

-- while tr_ptr > 0 && transfers[tr_ptr - 1].from_stop_idx_in_pattern >= i
unfoldable pub scan_transfers :
    TransitPartition
    → List ℕ
    → List (List (ℕ × ℕ))
    → ℕ
    → List Transfer
    → Tau
    → List Transfer
    → Option Scan
scan_transfers partition change_times footpaths i [] tau kept =
    some (record { tau = tau; pending = []; kept = kept })
scan_transfers partition change_times footpaths i (tr ∷ pending) tau kept =
    let skipped = scan_transfers partition change_times footpaths i pending tau (tr ∷ kept) in
    let tried = try_transfer partition change_times footpaths tr tau >>= λ result.
    scan_transfers partition change_times footpaths i pending result.0
      (if result.1 then tr ∷ kept else kept) in
    if leb i tr.from_stop_idx_in_pattern
    then (if tr.from_stop_idx_in_pattern == i then tried else skipped)
    else some (record { tau = tau; pending = tr ∷ pending; kept = kept })

-- The body of the loop over the stops of the trip.
unfoldable pub scan_stop :
    TransitPartition → List ℕ → List (List (ℕ × ℕ)) → List ℕ → ℕ × ℕ → Scan → Option Scan
scan_stop partition change_times footpaths arrivals (i, stop_idx) scan = do
  arr_time ← get_elem? arrivals i
  (tau', _) ← arrive change_times footpaths stop_idx arr_time scan.tau
  scan_transfers partition change_times footpaths i scan.pending tau' scan.kept

-- The times of the visited stops are set back to `u32::MAX`.
unfoldable pub reset_stop : ℕ → Tau → Option Tau
reset_stop s tau = do
  times ← store_at tau.tau_a s u32_max
  changes ← store_at tau.tau_c s u32_max
  some (record tau { tau_a = times; tau_c = changes })

unfoldable pub reset : Tau → Option Tau
reset tau = do cleared ← for_each reset_stop tau.visited tau; some (record cleared { visited = [] })

abbrev pub by_from_stop : Transfer → Transfer → Bool
by_from_stop a b = leb a.from_stop_idx_in_pattern b.from_stop_idx_in_pattern

-- The survivors of the trip's transfers, and the buffers for the next trip.
unfoldable pub refine_transfers_for_trip :
    TransitPartition
    → List (List (ℕ × ℕ))
    → List ℕ
    → CompressedTrip
    → List ℕ
    → List Transfer
    → Tau
    → Option (List Transfer × Tau)
refine_transfers_for_trip partition footpaths change_times trip stop_indices transfers tau = do
  fresh ← reset tau
  arrivals ← trip_arrivals partition trip stop_indices
  scan ←
      for_each (scan_stop partition change_times footpaths arrivals)
        (reverse (enumerate 0 stop_indices))
        (record { tau = fresh; pending = reverse (sort_by by_from_stop transfers); kept = [] })
  some (reverse scan.pending ++ scan.kept, scan.tau)
