-- ===== src/Schedules/Ranges.antt =====
-- The service days around a time: `find_service_ranges` of src/lib.rs. Times are seconds; dates are
-- day numbers. Of chrono, `date_of` is the local date at a time, `noon` the single time of
-- noon on a date, `none` where the zone skips or repeats it.
pub mod Laws
use catenary_backend.Common.{
  ℕ, zero, suc, ◌+◌, ◌-◌, max, Bool, Option, none, some, List, [], ◌∷◌, leb, ◌==◌, if◌then◌else◌,
  ◌>>=◌,
}
use catenary_backend.Common.Int.{ℤ, pos, ◌+ℤ◌, ◌-ℤ◌}
use catenary_backend.Common.Sorting.{sort_by}
use catenary_backend.Schedules.Feed.{Weekday}
use catenary_backend.Schedules.Services.{CalendarUnified, datetime_in_service}

-- The fields of `TripToFindScheduleFor` that are read; of a frequency, its end time.
pub record TripToFindScheduleFor : Type 0 where
  pub time_since_start_of_service_date : ℤ
  pub frequency : Option (List ℕ)

-- freq.iter().max_by(…).unwrap().end_time
unfoldable pub latest_end : List ℕ → Option ℕ
latest_end [] = none
latest_end (end_time ∷ []) = some end_time
latest_end (end_time ∷ ends) = do later ← latest_end ends; some (max end_time later)

unfoldable pub additional_lookback : Option (List ℕ) → Option ℕ
additional_lookback none = some 0
additional_lookback (some freq) = latest_end freq

-- Vec::dedup, for a vector that follows `previous`
unfoldable pub dedup_after : ℕ → List ℕ → List ℕ
dedup_after previous [] = []
dedup_after previous (d ∷ ds) =
    let kept = dedup_after d ds in if previous == d then kept else d ∷ kept

unfoldable pub dedup : List ℕ → List ℕ
dedup [] = []
dedup (d ∷ ds) = d ∷ dedup_after d ds

module _ (weekday : ℕ → Weekday) where
  -- while i <= end_date_service_check: `rounds` days are left.
  unfoldable pub service_days : CalendarUnified → ℕ → ℕ → List ℕ
  service_days service zero i = []
  service_days service (suc rounds) i =
      let later = service_days service rounds (i + 1) in
      if datetime_in_service weekday service i then i ∷ later else later

  module _ (date_of : ℤ → ℕ) (noon : ℕ → Option ℤ) where
    -- Each day with the time twelve hours before its noon; a day without a noon panics.
    unfoldable pub starting_times : List ℕ → Option (List (ℕ × ℤ))
    starting_times [] = some []
    starting_times (nd ∷ days) = do
      n ← noon nd
      rest ← starting_times days
      some ((nd, n -ℤ pos 43200) ∷ rest)

    unfoldable pub find_service_ranges :
        CalendarUnified → TripToFindScheduleFor → ℤ → ℤ → ℤ → Option (List (ℕ × ℤ))
    find_service_ranges service trip_instance input_time back_duration forward_duration = do
      lookback ← additional_lookback trip_instance.frequency
      let start_chrono = input_time -ℤ back_duration
      let first =
          date_of (start_chrono -ℤ trip_instance.time_since_start_of_service_date -ℤ pos lookback)
      let last =
          date_of (input_time +ℤ forward_duration -ℤ trip_instance.time_since_start_of_service_date)
      starting_times (dedup (sort_by leb (service_days service (last + 1 - first) first)))
