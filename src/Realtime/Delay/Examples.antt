-- ===== src/Realtime/Delay/Examples.antt =====
-- A trip of the even days, predicted five minutes late at its first stop.
use Prim.Native.String.{String}
use catenary_backend.Common.{
  ℕ, ◌+◌, ◌*◌, ◌%◌, ◌≡◌, ◌<◌, refl, sym, ap, ◌∙◌, some-injective, Option, none, some, List, [], ◌∷◌,
  ◌==◌, if◌then◌else◌, true, filter, any, arith,
}
use catenary_backend.Common.Int.{ℤ, pos, ◌+ℤ◌, ◌-ℤ◌, wrap_signed}
use catenary_backend.Common.Sorting.{sort_by}
use catenary_backend.Schedules.Feed.{Weekday, sun, tue, get}
use catenary_backend.Schedules.Services.{
  CalendarUnified, in_general, with_exceptions, datetime_in_service,
}
use catenary_backend.Realtime.Compact.{CompactItineraryPatternRow}
use catenary_backend.Realtime.Delay.{
  AspenisedStopTimeUpdate, ScheduledTrip, Tz, is_relevant, is_after_now, next_update, pick_row,
  itinerary_stop_row, service_runs, guess_dates, closest_date, guess_start_date, calculate_delay,
  reference_time,
}
use catenary_backend.Realtime.Delay.Dates.{gap, IsGuess, Nearest, guess_start_date-Nearest}
use catenary_backend.Realtime.Delay.Safe.{IsDated, calculate_delay-returns}
use catenary_backend.Realtime.Delay.Late.{
  FirstEligible, next_update-FirstEligible, as_seen, calculate_delay-Reported,
}

abbrev weekday_of : ℕ → Weekday
weekday_of d = if d % 2 == 0 then sun else tue

abbrev parse : String → Option ℕ
parse text = some 18

abbrev calendars : List (String × CalendarUnified)
calendars =
    (
      "even",
      record {
        id = "even";
        general_calendar = some (record { days = sun ∷ []; start_date = 0; end_date = 100 });
        exceptions = none;
      },
    )
    ∷ []

abbrev zone : Tz
zone = record { noon = λ d. some (pos (d * 86400 + 43200)); today = 20 }

abbrev trip : ScheduledTrip
trip = record { service_id = "even"; start_time = 3600 }

abbrev update_at : String → ℕ → AspenisedStopTimeUpdate
update_at id time = record {
  stop_sequence = none;
  stop_id = some id;
  arrival = some (record { delay = none; time = some (pos time); uncertainty = none });
  departure = none;
}

abbrev row_of : String → ℕ → CompactItineraryPatternRow
row_of id since = record {
  stop_sequence = pos 0;
  arrival_time_since_start = some (pos since);
  departure_time_since_start = none;
  interpolated_time_since_start = none;
  stop_id = id;
  gtfs_stop_sequence = 0;
  timepoint = none;
  stop_headsign_idx = none;
}

-- Day 18 begins at 1555200; the stop is planned 4200 seconds later and predicted 4500 seconds later.
abbrev updates : List AspenisedStopTimeUpdate
updates = update_at "x" 1559800 ∷ update_at "a" 1559000 ∷ update_at "b" 1559700 ∷ []

abbrev rows : List CompactItineraryPatternRow
rows = row_of "a" 0 ∷ row_of "b" 600 ∷ []

abbrev ids : List String
ids = "a" ∷ "b" ∷ []

next_found : next_update ids 1559500 updates ≡ some (update_at "b" 1559700)
unfolding next_update filter is_relevant is_after_now any
next_found = refl

row_found : itinerary_stop_row (update_at "b" 1559700) rows ≡ some (row_of "b" 600)
unfolding itinerary_stop_row pick_row filter
row_found = refl

day_guessed :
    guess_start_date weekday_of calendars (some zone) trip (update_at "b" 1559700) (some (pos 600))
    ≡ some (some 18)
unfolding guess_start_date closest_date guess_dates service_runs get datetime_in_service in_general
    with_exceptions any sort_by wrap_signed reference_time ◌+ℤ◌ ◌-ℤ◌
day_guessed = refl

due_at :
    (d : ℕ)
    → pos (d * 86400 + 43200) -ℤ pos 43200 +ℤ pos 600 +ℤ pos 3600 ≡ pos (d * 86400 + 600 + 3600)
unfolding ◌+ℤ◌ ◌-ℤ◌
due_at d = ground arith

near_enough :
    (d : ℕ) (s : ℤ)
    → IsGuess weekday_of calendars zone trip (pos 600) d s
    → gap (pos 1559700) s < 0x8000_0000_0000_0000
near_enough d s guess =
    let (noon, at, due) = guess.due in
    let is_noon : noon ≡ pos (d * 86400 + 43200) = some-injective (sym at) in
    let below = guess.to_four_days_ahead in
    let time : s ≡ pos (d * 86400 + 600 + 3600) =
      due ∙ (ap (λ n. n -ℤ pos 43200 +ℤ pos 600 +ℤ pos 3600) is_noon ∙ due_at d) in
    rw time (omega arith)

guess_start_date-Nearest_example :
    Nearest weekday_of calendars zone trip (pos 600) (pos 1559700) (some 18)
guess_start_date-Nearest_example =
    guess_start_date-Nearest weekday_of calendars zone trip (pos 600) (update_at "b" 1559700)
      (pos 1559700) refl near_enough day_guessed

next_update-FirstEligible_example :
    FirstEligible ids 1559500 updates (next_update ids 1559500 updates)
next_update-FirstEligible_example = next_update-FirstEligible ids 1559500 updates

calculate_delay-Reported_example :
    calculate_delay weekday_of parse none
      (some "18")
      (some ids)
      (some rows)
      true
      updates
      1559500
      (some trip)
      calendars
      (some zone)
    ≡ some (some (pos 300))
unfolding ◌+ℤ◌ ◌-ℤ◌
calculate_delay-Reported_example =
    calculate_delay-Reported weekday_of parse ids rows updates 1559500 trip calendars zone "18" 18
      (update_at "b" 1559700) (row_of "b" 600) (pos 1598400) (pos 600) (pos 300) (pos 300) refl refl
      next_found row_found refl refl (as_seen (pos 300) (omega arith) (omega arith))

is_dated : IsDated parse zone (some "18")
unfolding IsDated
is_dated = (18, refl, (pos 1598400, refl))

calculate_delay-returns_example :
    (delay : Option ℤ) × (calculate_delay weekday_of parse none
        (some "18")
        (some ids)
        (some rows)
        true
        updates
        1559500
        none
        calendars
        (some zone)
      ≡ some delay)
calculate_delay-returns_example =
    calculate_delay-returns weekday_of parse calendars zone none (some "18") (some ids) (some rows)
      true updates 1559500 none is_dated
