-- ===== src/Realtime/Delay/Safe.antt =====
-- `calculate_delay` does not panic when the time zone is known, the start date can be read
-- and the days that are looked at have a noon.
use Prim.Native.String.{String}
use catenary_backend.Common.{
  ℕ, ◌≡◌, refl, Bool, true, false, Option, none, some, List, or_else, ◌+◌, ◌-◌, ◌≤◌, ◌<◌, ap, sym,
  ◌∙◌, some-injective, arith,
}
use catenary_backend.Common.Int.{ℤ, pos, ◌-ℤ◌}
use catenary_backend.Schedules.Feed.{Weekday}
use catenary_backend.Schedules.Services.{CalendarUnified}
use catenary_backend.Realtime.Compact.{CompactItineraryPatternRow}
use catenary_backend.Realtime.Delay.{
  AspenisedStopTimeUpdate, ScheduledTrip, Tz, next_update, itinerary_stop_row, guess_start_date,
  start_date, delay_at, delay_on, delay_of_row, delay_of_update, calculate_delay, reference_time,
}
use catenary_backend.Realtime.Delay.Dates.{guess_start_date-returns}

-- A start date that the feed gives is a date with a noon; where it gives none, each of the ten days
-- that are tried has one.
unfoldable pub IsDated : (String → Option ℕ) → Tz → Option String → Type 0
IsDated parse_date tz none =
    (d : ℕ) → tz.today - 5 ≤ d → d < tz.today - 5 + 10 → (noon : ℤ) × (tz.noon d ≡ some noon)
IsDated parse_date tz (some text) =
    (date : ℕ) × (parse_date text ≡ some date) × ((noon : ℤ) × (tz.noon date ≡ some noon))

module _ (weekday : ℕ → Weekday) (parse_date : String → Option ℕ)
    (calendars : List (String × CalendarUnified)) (tz : Tz) where
  abbrev Returns : {A : Type 0} → Option A → Type 0
  Returns {A} o = (r : A) × (o ≡ some r)

  -- The start date is found, and it has a noon.
  Starts : Option (Option ℕ) → Type 0
  Starts o =
      (r : Option ℕ) × (o ≡ some r) × ((d : ℕ) → r ≡ some d → (noon : ℤ) × (tz.noon d ≡ some noon))

  guess_start_date-Starts :
      (trip : ScheduledTrip) (stu : AspenisedStopTimeUpdate) (since : Option ℤ)
      → IsDated parse_date tz none
      → Starts (guess_start_date weekday calendars (some tz) trip stu since)
  unfolding guess_start_date IsDated Starts
  guess_start_date-Starts trip stu none noons = (none, refl, λ d e. absurd (ground (arith, e)))
  guess_start_date-Starts trip stu (some since) noons =
      guess_start_date-returns weekday calendars tz trip since stu noons

  start_date-Starts :
      (text : Option String) (trip : ScheduledTrip) (stu : AspenisedStopTimeUpdate)
      (row : CompactItineraryPatternRow)
      → IsDated parse_date tz text
      → Starts (start_date weekday parse_date text calendars (some tz) trip stu row)
  unfolding start_date IsDated Starts
  start_date-Starts none trip stu row dated =
      guess_start_date-Starts trip stu
        (or_else row.arrival_time_since_start row.departure_time_since_start) dated
  start_date-Starts (some text) trip stu row (date, parsed, (noon, at)) =
      (some date, rw parsed refl, λ d e. (noon, ap tz.noon (sym (some-injective e)) ∙ at))

  delay_on-Returns :
      (date : Option ℕ) (trip : ScheduledTrip) (stu : AspenisedStopTimeUpdate)
      (row : CompactItineraryPatternRow)
      → ((d : ℕ) → date ≡ some d → (noon : ℤ) × (tz.noon d ≡ some noon))
      → Returns (delay_on (some tz) date trip stu row)
  unfolding delay_on reference_time
  delay_on-Returns none trip stu row noons = (none, refl)
  delay_on-Returns (some date) trip stu row noons =
      let (noon, at) = noons date refl in (delay_at (noon -ℤ pos 43200) trip stu row, rw at refl)

  delay_of_row-Returns :
      (text : Option String) (trip : Option ScheduledTrip) (stu : AspenisedStopTimeUpdate)
      (row : Option CompactItineraryPatternRow)
      → IsDated parse_date tz text
      → Returns (delay_of_row weekday parse_date text trip calendars (some tz) stu row)
  unfolding delay_of_row Starts
  delay_of_row-Returns text trip stu none dated = (none, refl)
  delay_of_row-Returns text none stu (some row) dated = (none, refl)
  delay_of_row-Returns text (some trip) stu (some row) dated =
      let (date, found, noons) = start_date-Starts text trip stu row dated in
      let (delay, at) = delay_on-Returns date trip stu row noons in (delay, rw found at)

  delay_of_update-Returns :
      (text : Option String) (rows : List CompactItineraryPatternRow) (trip : Option ScheduledTrip)
      (next : Option AspenisedStopTimeUpdate)
      → IsDated parse_date tz text
      → Returns (delay_of_update weekday parse_date text rows trip calendars (some tz) next)
  unfolding delay_of_update
  delay_of_update-Returns text rows trip none dated = (none, refl)
  delay_of_update-Returns text rows trip (some stu) dated =
      delay_of_row-Returns text trip stu (itinerary_stop_row stu rows) dated

  -- With a time zone, the calculation returns, with a delay or without, when the start date that the
  -- feed gives is a date with a noon in the zone, or it gives none and each of the ten days from five
  -- days ago on has a noon there.
  pub calculate_delay-returns :
      (given : Option ℤ) (text : Option String) (ids : Option (List String))
      (rows : Option (List CompactItineraryPatternRow)) (has_meta : Bool)
      (updates : List AspenisedStopTimeUpdate) (now : ℕ) (trip : Option ScheduledTrip)
      → IsDated parse_date tz text
      → (delay : Option ℤ) × (calculate_delay weekday parse_date given text ids rows has_meta
            updates now trip calendars
            (some tz)
          ≡ some delay)
  unfolding calculate_delay
  calculate_delay-returns (some given) text ids rows has_meta updates now trip dated =
      (some given, refl)
  calculate_delay-returns none text none rows has_meta updates now trip dated = (none, refl)
  calculate_delay-returns none text (some ids) none has_meta updates now trip dated = (none, refl)
  calculate_delay-returns none text (some ids) (some rows) false updates now trip dated =
      (none, refl)
  calculate_delay-returns none text (some ids) (some rows) true updates now trip dated =
      delay_of_update-Returns text rows trip (next_update ids now updates) dated
