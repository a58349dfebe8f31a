-- ===== src/Realtime/Closest.antt =====
-- The stop time update shown for a vehicle: `find_closest_stop_time_update` of
-- src/aspen/stop_time_logic.rs, over the compact updates of `Compact`.
pub mod Laws
use catenary_backend.Common.{
  ℕ, Bool, true, false, not, ◌&&◌, Option, none, some, List, [], ◌∷◌, ltb, leb, ◌==◌, if◌then◌else◌,
  or_else, ◌>>=◌,
}
use catenary_backend.Common.Int.{ℤ, pos, negsuc, residue, ◌+ℤ◌}
use catenary_backend.Realtime.Compact.{
  Payload, CompactStopTimeEvent, CompactStopTimeUpdate, as_i64, wrap_i64,
}

-- z as u64
abbrev pub as_u64 : ℤ → ℕ
as_u64 z = residue 0x1_0000_0000_0000_0000 z

-- (reference_epoch as i64 + i32::from(t) as i64) as u64
unfoldable pub event_time : ℕ → Option CompactStopTimeEvent → Option ℕ
event_time reference_epoch event = do
  e ← event
  t ← e.time
  some (as_u64 (wrap_i64 (as_i64 reference_epoch +ℤ t)))

-- Some(1) is a stop that the vehicle skips.
abbrev pub is_one : Option ℤ → Bool
is_one none = false
is_one (some (pos n)) = n == 1
is_one (some (negsuc n)) = false

unfoldable pub is_within : ℕ → Option ℕ → Option ℕ → Bool
is_within current none dep = false
is_within current (some arr) none = false
is_within current (some arr) (some dep) = leb arr current && leb current dep

module _ (p : Payload) where
  -- The best update so far with its time: the two are always written together.
  pub record Best : Type 0 where
    pub time : ℕ
    pub update : CompactStopTimeUpdate p

  -- What the first loop ends with: the update it returns at once, or the best one.
  pub data Search : Type 0 where
    found : CompactStopTimeUpdate p → Search
    searched : Option Best → Search

  unfoldable pub is_skipped : CompactStopTimeUpdate p → Bool
  is_skipped update = is_one update.schedule_relationship

  unfoldable pub note :
      (ℕ → ℕ → Bool) → Option ℕ → CompactStopTimeUpdate p → Option Best → Option Best
  note better none update best = best
  note better (some t) update none = some (record { time = t; update = update })
  note better (some t) update (some b) =
      if better t b.time then some (record { time = t; update = update }) else some b

  module _ (reference_epoch : ℕ) where
    unfoldable pub comparison_time : CompactStopTimeUpdate p → Option ℕ
    comparison_time update =
        or_else (event_time reference_epoch update.arrival)
          (event_time reference_epoch update.departure)

    -- Case A: the time is between the arrival and the departure.
    unfoldable pub is_active : ℕ → CompactStopTimeUpdate p → Bool
    is_active current update =
        is_within current (event_time reference_epoch update.arrival)
          (event_time reference_epoch update.departure)

    -- The time that counts in case C, and in case B where it is ahead.
    unfoldable pub past_time : CompactStopTimeUpdate p → Option ℕ
    past_time update = if is_skipped update then none else comparison_time update

    unfoldable pub future_time : ℕ → CompactStopTimeUpdate p → Option ℕ
    future_time current update = do t ← past_time update; if ltb current t then some t else none

    -- The first loop, with the early return.
    unfoldable pub future_loop : ℕ → List (CompactStopTimeUpdate p) → Option Best → Search
    future_loop current [] best = searched best
    future_loop current (update ∷ rest) best =
        let later = future_loop current rest (note ltb (future_time current update) update best) in
        if not (is_skipped update) && is_active current update then found update else later

    -- The loop of case C.
    unfoldable pub past_loop : List (CompactStopTimeUpdate p) → Option Best → Option Best
    past_loop [] max = max
    past_loop (update ∷ rest) max =
        past_loop rest (note (λ t m. ltb m t) (past_time update) update max)

    unfoldable pub update_of : Option Best → Option (CompactStopTimeUpdate p)
    update_of best = do b ← best; some b.update

    unfoldable pub finish :
        List (CompactStopTimeUpdate p) → Search → Option (CompactStopTimeUpdate p)
    finish updates (found update) = some update
    finish updates (searched best) = or_else (update_of best) (update_of (past_loop updates none))

    unfoldable pub find_closest_stop_time_update :
        List (CompactStopTimeUpdate p) → ℕ → Option (CompactStopTimeUpdate p)
    find_closest_stop_time_update updates current =
        finish updates (future_loop current updates none)
