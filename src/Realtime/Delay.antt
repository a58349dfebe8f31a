-- ===== src/Realtime/Delay.antt =====
-- The delay of a trip: `calculate_delay` of src/aspen/delay_calculation.rs. Dates are day numbers and
-- times are seconds; outside the answer, `none` is a panic.
pub mod Dates
pub mod Late
pub mod Safe
mod Examples
use Prim.Native.String.{String}
use text.Mathlib.Text.{◌==◌}
use catenary_backend.Common.{
  ℕ, zero, suc, ◌+◌, ◌-◌, Bool, true, false, ◌&&◌, ◌||◌, Option, none, some, List, [], ◌∷◌, leb,
  if◌then◌else◌, filter, any, or_else, ◌>>=◌,
}
use catenary_backend.Common as Common
use catenary_backend.Common.Int.{ℤ, pos, negsuc, residue, wrap_signed, ltb_ℤ, leb_ℤ, ◌+ℤ◌, ◌-ℤ◌}
use catenary_backend.Common.Sorting.{sort_by}
use catenary_backend.Realtime.Compact.{CompactItineraryPatternRow, wrap_i64}
use catenary_backend.Realtime.Closest.{as_u64}
use catenary_backend.Schedules.Feed.{Weekday, get}
use catenary_backend.Schedules.Services.{CalendarUnified, datetime_in_service}

pub record AspenStopTimeEvent : Type 0 where
  pub delay : Option ℤ
  pub time : Option ℤ
  pub uncertainty : Option ℤ

-- The fields of `AspenisedStopTimeUpdate` that are read.
pub record AspenisedStopTimeUpdate : Type 0 where
  pub stop_sequence : Option ℕ
  pub stop_id : Option String
  pub arrival : Option AspenStopTimeEvent
  pub departure : Option AspenStopTimeEvent

-- The fields of models::CompressedTrip that are read.
pub record ScheduledTrip : Type 0 where
  pub service_id : String
  pub start_time : ℕ

-- What the code asks chrono of a time zone: the single noon on a date, `none` where the zone skips or
-- repeats it, and the date of now.
pub record Tz : Type 0 where
  pub noon : ℕ → Option ℤ
  pub today : ℕ

abbrev pub is_present : {A : Type 0} → Option A → Bool
is_present none = false
is_present (some a) = true

abbrev pub contains_id : List String → Option String → Bool
contains_id ids none = false
contains_id ids (some id) = any (λ x. x == id) ids

-- The two filters of `filtered_stu`.
unfoldable pub is_relevant : List String → AspenisedStopTimeUpdate → Bool
is_relevant ids stu =
    (is_present stu.arrival || is_present stu.departure) && contains_id ids stu.stop_id

abbrev pub time_of : Option AspenStopTimeEvent → Option ℤ
time_of event = event >>= λ e. e.time

-- single_number as u64 >= current_time_unix_timestamp
abbrev pub is_ahead : ℕ → Option ℤ → Bool
is_ahead now none = false
is_ahead now (some t) = leb now (as_u64 t)

-- The filter of `filtered_stu_after_now`.
unfoldable pub is_after_now : ℕ → AspenisedStopTimeUpdate → Bool
is_after_now now stu = is_ahead now (or_else (time_of stu.departure) (time_of stu.arrival))

abbrev pub first : {A : Type 0} → List A → Option A
first [] = none
first (x ∷ xs) = some x

-- filtered_stu_after_now[0]
unfoldable pub next_update :
    List String → ℕ → List AspenisedStopTimeUpdate → Option AspenisedStopTimeUpdate
next_update ids now updates = first (filter (is_after_now now) (filter (is_relevant ids) updates))

abbrev pub same_stop : Option String → String → Bool
same_stop none id = false
same_stop (some stop_id) id = id == stop_id

-- stu.stop_sequence == Some(itinerary_row.stop_sequence as u16)
abbrev pub same_sequence : Option ℕ → ℤ → Bool
same_sequence none sequence = false
same_sequence (some n) sequence = Common.◌==◌ n (residue 0x1_0000 sequence)

-- Among several rows the one with the update's stop sequence.
unfoldable pub pick_row :
    AspenisedStopTimeUpdate → List CompactItineraryPatternRow → Option CompactItineraryPatternRow
pick_row stu [] = none
pick_row stu (row ∷ []) = some row
pick_row stu (row ∷ other ∷ rows) = first (
    filter (λ (r : CompactItineraryPatternRow). same_sequence stu.stop_sequence r.stop_sequence)
      (row ∷ other ∷ rows))

-- `itinerary_stop_row`
unfoldable pub itinerary_stop_row :
    AspenisedStopTimeUpdate → List CompactItineraryPatternRow → Option CompactItineraryPatternRow
itinerary_stop_row stu rows =
    pick_row stu
      (filter (λ (row : CompactItineraryPatternRow). same_stop stu.stop_id row.stop_id) rows)

-- (a - b).abs() of i64
abbrev pub abs_i64 : ℤ → ℤ
abs_i64 (pos n) = pos n
abs_i64 (negsuc n) = wrap_i64 (pos (suc n))

abbrev pub distance : ℤ → ℤ → ℤ
distance a b = abs_i64 (wrap_i64 (a -ℤ b))

-- Midnight, taken as twelve hours before noon; a date without a noon panics.
unfoldable pub reference_time : Tz → ℕ → Option ℤ
reference_time tz d = do noon ← tz.noon d; some (noon -ℤ pos 43200)

-- The date whose schedule is closest to the time of the update.
unfoldable pub closest_date : Option ℤ → List (ℕ × ℤ) → Option ℕ
closest_date none guesses = none
closest_date (some chosen) guesses = do
  guess ←
      first (sort_by (λ (x y : ℕ × ℤ). leb_ℤ (distance chosen x.1) (distance chosen y.1)) guesses)
  some guess.0

-- The predicted time against the scheduled one, or against the other event's where it has none.
unfoldable pub delay_against : Option ℤ → Option ℤ → Option ℤ → Option ℤ
delay_against time scheduled other = do
  t ← time
  s ← or_else scheduled other
  some (wrap_i64 (t -ℤ s))

-- Many hours early are taken for late on the day before.
unfoldable pub correct_early : ℤ → ℤ
correct_early d =
    if ltb_ℤ d (negsuc 21599)
    then (if ltb_ℤ (pos 0) (d +ℤ pos 86400) then d +ℤ pos 86400 else d)
    else d

abbrev pub after : ℤ → Option ℤ → Option ℤ
after start since = do s ← since; some (start +ℤ s)

-- The delay at the stop of the row, for a trip of the day that begins at the time.
unfoldable pub delay_at :
    ℤ → ScheduledTrip → AspenisedStopTimeUpdate → CompactItineraryPatternRow → Option ℤ
delay_at midnight trip stu row = do
  let start_time = midnight +ℤ pos trip.start_time
  let scheduled_departure = after start_time row.departure_time_since_start
  let scheduled_arrival = after start_time row.arrival_time_since_start
  delay ←
      or_else (delay_against (time_of stu.arrival) scheduled_arrival scheduled_departure)
        (delay_against (time_of stu.departure) scheduled_departure scheduled_arrival)
  some (wrap_signed 0x8000_0000 (correct_early delay))

-- From the match on the start date on.
unfoldable pub delay_on :
    Option Tz
    → Option ℕ
    → ScheduledTrip
    → AspenisedStopTimeUpdate
    → CompactItineraryPatternRow
    → Option (Option ℤ)
delay_on timezone none trip stu row = some none
delay_on timezone (some date) trip stu row = do
  tz ← timezone
  midnight ← reference_time tz date
  some (delay_at midnight trip stu row)

-- `date.weekday()` of chrono is a parameter.
module _ (weekday : ℕ → Weekday) where
  unfoldable pub service_runs : List (String × CalendarUnified) → String → ℕ → Bool
  service_runs calendar_structure service_id d = elim (get calendar_structure service_id) [
    | none ↦ false
    | some service ↦ datetime_in_service weekday service d
  ]

  -- for d in few_days_before.iter_days(): `days` are left.
  unfoldable pub guess_dates :
      List (String × CalendarUnified) → Tz → ScheduledTrip → ℤ → ℕ → ℕ → Option (List (ℕ × ℤ))
  guess_dates calendar_structure tz trip timescheduled zero d = some []
  guess_dates calendar_structure tz trip timescheduled (suc days) d = do
    midnight ← reference_time tz d
    rest ← guess_dates calendar_structure tz trip timescheduled days (d + 1)
    some (
        if service_runs calendar_structure trip.service_id d
        then (d, midnight +ℤ timescheduled +ℤ pos trip.start_time) ∷ rest
        else rest)

  -- The date when the feed names none: the day five days ago and the nine after it are tried.
  unfoldable pub guess_start_date :
      List (String × CalendarUnified)
      → Option Tz
      → ScheduledTrip
      → AspenisedStopTimeUpdate
      → Option ℤ
      → Option (Option ℕ)
  guess_start_date calendar_structure timezone trip stu none = some none
  guess_start_date calendar_structure timezone trip stu (some timescheduled) = do
    tz ← timezone
    guesses ← guess_dates calendar_structure tz trip timescheduled 10 (tz.today - 5)
    some (closest_date (or_else (time_of stu.arrival) (time_of stu.departure)) guesses)

  -- The parser of dates of chrono is a parameter.
  module _ (parse_date : String → Option ℕ) where
    unfoldable pub start_date :
        Option String
        → List (String × CalendarUnified)
        → Option Tz
        → ScheduledTrip
        → AspenisedStopTimeUpdate
        → CompactItineraryPatternRow
        → Option (Option ℕ)
    start_date none calendar_structure timezone trip stu row =
        guess_start_date calendar_structure timezone trip stu
          (or_else row.arrival_time_since_start row.departure_time_since_start)
    start_date (some text) calendar_structure timezone trip stu row = do
      date ← parse_date text
      some (some date)

    -- From the match on the itinerary's row on.
    unfoldable pub delay_of_row :
        Option String
        → Option ScheduledTrip
        → List (String × CalendarUnified)
        → Option Tz
        → AspenisedStopTimeUpdate
        → Option CompactItineraryPatternRow
        → Option (Option ℤ)
    delay_of_row trip_start_date compressed_trip calendar_structure timezone stu none = some none
    delay_of_row trip_start_date none calendar_structure timezone stu (some row) = some none
    delay_of_row trip_start_date (some trip) calendar_structure timezone stu (some row) = do
      date ← start_date trip_start_date calendar_structure timezone trip stu row
      delay_on timezone date trip stu row

    -- From the match on the updates ahead on.
    unfoldable pub delay_of_update :
        Option String
        → List CompactItineraryPatternRow
        → Option ScheduledTrip
        → List (String × CalendarUnified)
        → Option Tz
        → Option AspenisedStopTimeUpdate
        → Option (Option ℤ)
    delay_of_update trip_start_date rows compressed_trip calendar_structure timezone none =
        some none
    delay_of_update trip_start_date rows compressed_trip calendar_structure timezone (some stu) =
        delay_of_row trip_start_date compressed_trip calendar_structure timezone stu
          (itinerary_stop_row stu rows)

    -- The itinerary's rows and record come together or not at all; of the record nothing is read.
    unfoldable pub calculate_delay :
        Option ℤ
        → Option String
        → Option (List String)
        → Option (List CompactItineraryPatternRow)
        → Bool
        → List AspenisedStopTimeUpdate
        → ℕ
        → Option ScheduledTrip
        → List (String × CalendarUnified)
        → Option Tz
        → Option (Option ℤ)
    calculate_delay (some delay) trip_start_date ids rows has_meta updates now trip calendars
          timezone =
        some (some delay)
    calculate_delay none trip_start_date none rows has_meta updates now trip calendars timezone =
        some none
    calculate_delay none trip_start_date (some ids) none has_meta updates now trip calendars
          timezone =
        some none
    calculate_delay none trip_start_date (some ids) (some rows) has_meta updates now trip calendars
          timezone =
        if has_meta
        then delay_of_update trip_start_date rows trip calendars timezone
            (next_update ids now updates)
        else some none
