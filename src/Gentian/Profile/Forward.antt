-- ===== src/Gentian/Profile/Forward.antt =====
-- The forward pass of `compute_profile_query` of src/gentian/trip_based.rs: a stack of trips to ride,
-- and for each number of transfers and each trip the first stop at which the trip was boarded.
pub mod Labels
pub mod Rules
pub mod Ends
pub mod Sound
pub mod Serves
pub mod Closed
pub mod Complete
use catenary_backend.Common.{
  ℕ, zero, suc, ◌+◌, ◌-◌, min, Bool, true, false, not, ◌&&◌, ◌||◌, Option, none, some, List, [],
  ◌∷◌, ltb, ◌==◌, if◌then◌else◌, ◌>>=◌, length, get_elem?, set, find?, replicate, ◌*◌,
}
use catenary_backend.Common.Words.{u32_max}
use catenary_backend.Gentian.Index.{pattern_stops}
use catenary_backend.Gentian.Transfers.{Transfer}
use catenary_backend.Gentian.Profile.{
  TripRange, Query, inactive_mask, idx_of, is_inactive, mark_inactive, get_flat_id, is_hub,
}
use catenary_backend.Gentian.Profile.Seeds.{Seed}

-- An entry of the stack: a trip boarded with n transfers, and the label that it had before.
pub record Frame : Type 0 where
  pub n : ℕ
  pub flat_id : ℕ
  pub stop_idx_raw : ℕ
  pub old_r_val : ℕ

-- `active` is `active_in_stack`, the number of frames of the stack that are not inactive.
pub record ForwardSearch : Type 0 where
  pub r_labels : List (List ℕ)
  pub stack : List Frame
  pub active : ℕ

-- r_labels[n][flat_id] = value, for a `level` read there, and the frame that is pushed with it.
unfoldable pub push : ℕ → ℕ → ℕ → ℕ → List ℕ → ForwardSearch → ForwardSearch
push n flat_id value old level s = record {
  r_labels = set s.r_labels n (set level flat_id value);
  stack = record { n = n; flat_id = flat_id; stop_idx_raw = value; old_r_val = old } ∷ s.stack;
  active = if is_inactive value then s.active else s.active + 1;
}

-- A trip is boarded with n transfers at `stop_idx`, when that is before the label it has.
unfoldable pub board : ℕ → ℕ → ℕ → Bool → ForwardSearch → Option ForwardSearch
board n flat_id stop_idx inactive s = do
  level ← get_elem? s.r_labels n
  old ← get_elem? level flat_id
  some (
      if ltb stop_idx (idx_of old)
      then push n flat_id (if inactive then mark_inactive stop_idx else stop_idx) old level s
      else s)

-- The stops and the range of transfers of a trip, lo..hi, as the list of its indices.
unfoldable pub indices_from : ℕ → ℕ → List ℕ
indices_from k zero = []
indices_from k (suc count) = k ∷ indices_from (k + 1) count

unfoldable pub range_indices : Option TripRange → List ℕ
range_indices none = []
range_indices (some range) = indices_from range.start (range.end - range.start)

-- What a loop on fuel comes to.
pub data Outcome : Type 0 where
  done : ForwardSearch → Outcome
  panicked : Outcome
  out_of_fuel : Outcome

module _ (q : Query) where
  unfoldable pub trip_info : ℕ → Option (List ℕ × List ℕ)
  trip_info flat_id = do
    (p_idx, t_idx) ← get_elem? q.flat_id_to_pattern_trip flat_id
    pattern ← get_elem? q.partition.trip_patterns p_idx
    stop_indices ← pattern_stops q.partition pattern
    some (
      stop_indices,
      range_indices
          (find? (λ r. r.pattern_idx == p_idx && r.trip_idx == t_idx) q.trip_transfer_ranges),
    )

  unfoldable pub becomes_inactive : ℕ → Bool
  becomes_inactive stop =
      if not q.is_source_hub then is_hub q stop && not (stop == q.start_stop) else false

  -- A transfer found at the stop.
  unfoldable pub follow : ℕ → Bool → Transfer → ForwardSearch → Option ForwardSearch
  follow n inactive tr s = do
    target_flat ← get_flat_id q tr.to_pattern_idx tr.to_trip_idx
    board (n + 1) target_flat tr.to_stop_idx_in_pattern inactive s

  -- while tr_ptr < tr_end, at stop i: the transfers tr_ptr..tr_end are `pending`.
  unfoldable pub leave_at : ℕ → Bool → ℕ → List ℕ → ForwardSearch → Option (List ℕ × ForwardSearch)
  leave_at n inactive i [] s = some ([], s)
  leave_at n inactive i (tr_ptr ∷ pending) s = do
    tr ← get_elem? q.transfers tr_ptr
    if ltb i tr.from_stop_idx_in_pattern then some (tr_ptr ∷ pending, s) else do
      s' ← (if ltb tr.from_stop_idx_in_pattern i then some s else follow n inactive tr s)
      leave_at n inactive i pending s'

  -- if n < max_transfers
  unfoldable pub leave : ℕ → Bool → ℕ → List ℕ → ForwardSearch → Option (List ℕ × ForwardSearch)
  leave n inactive i pending s =
      if ltb n q.max_transfers then leave_at n inactive i pending s else some (pending, s)

  -- for i in stop_idx..scan_limit: `rounds` stops are left.
  unfoldable pub ride_on : ℕ → Bool → List ℕ → ℕ → ℕ → List ℕ → ForwardSearch → Option ForwardSearch
  ride_on n inactive stop_indices zero i pending s = some s
  ride_on n inactive stop_indices (suc rounds) i pending s = do
    current_stop_global ← get_elem? stop_indices i
    (pending', s') ← leave n (inactive || becomes_inactive current_stop_global) i pending s
    ride_on n inactive stop_indices rounds (i + 1) pending' s'

  -- The trip of a frame that was popped is ridden up to the stop where it was boarded before.
  unfoldable pub expand : Frame → ForwardSearch → Option ForwardSearch
  expand frame s = do
    (stop_indices, pending) ← trip_info frame.flat_id
    let stop_idx = idx_of frame.stop_idx_raw
    let scan_limit = min (idx_of frame.old_r_val) (length stop_indices)
    ride_on frame.n (is_inactive frame.stop_idx_raw) stop_indices (scan_limit - stop_idx) stop_idx
        pending s

  -- One round of the `while` loop, for the frame on top and the frames below it. An inactive frame
  -- with no active one left ends the search of the seed.
  unfoldable pub round : Frame → List Frame → ForwardSearch → Option ForwardSearch
  round frame rest s =
      if is_inactive frame.stop_idx_raw
      then (if s.active == 0
          then some (record s { stack = [] })
          else expand frame (record s { stack = rest }))
      else expand frame (record s { stack = rest; active = s.active - 1 })

  -- The `while` loop, on fuel.
  unfoldable pub propagate : ℕ → ForwardSearch → Outcome
  propagate zero s = elim s.stack [ [] ↦ done s | _ ∷ _ ↦ out_of_fuel ]
  propagate (suc fuel) s = elim s.stack [
    | [] ↦ done s
    | frame ∷ rest ↦ elim (round frame rest s) [ none ↦ panicked | some s' ↦ propagate fuel s' ]
  ]

  -- The body of the loop over the seeds: the stack is empty before and after.
  unfoldable pub start_seed : Seed → ForwardSearch → Option ForwardSearch
  start_seed seed s = do
    flat_id ← get_flat_id q seed.pattern_idx seed.trip_idx
    board 0 flat_id seed.stop_idx false s

  unfoldable pub search_seed : ℕ → Option ForwardSearch → Outcome
  search_seed fuel none = panicked
  search_seed fuel (some s) = propagate fuel s

  unfoldable pub search_seeds : ℕ → List Seed → ForwardSearch → Outcome
  search_seeds fuel [] s = done s
  search_seeds fuel (seed ∷ seeds) s = elim (search_seed fuel (start_seed seed s)) [
    | done s' ↦ search_seeds fuel seeds s'
    | panicked ↦ panicked
    | out_of_fuel ↦ out_of_fuel
  ]

  -- Every label falls by one at least when it is written, so this fuel is enough.
  unfoldable pub forward_fuel : ℕ
  forward_fuel = suc q.max_transfers * length q.flat_id_to_pattern_trip * inactive_mask + 1

  unfoldable pub no_labels : List (List ℕ)
  no_labels = replicate (suc q.max_transfers) (replicate (length q.flat_id_to_pattern_trip) u32_max)

  unfoldable pub forward_pass : List Seed → Outcome
  forward_pass seeds =
      search_seeds forward_fuel seeds (record { r_labels = no_labels; stack = []; active = 0 })
