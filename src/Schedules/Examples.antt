-- ===== src/Schedules/Examples.antt =====
-- A small feed for the theorems on src/schedule_filtering/mod.rs.
use mathlib.Core.Path.{subst}
use catenary_backend.Common.{
  Option, List, ℕ, ◌%◌, ◌==◌, if◌then◌else◌, true, false, none, some, [], ◌∷◌, ◌≡◌, ◌⊎◌, ◌↔◌, inl,
  inr, refl, sym,
}
use catenary_backend.Schedules.Feed.{Weekday, tue, sun, deleted, Calendar, CalendarDate, Gtfs, get}
use catenary_backend.Schedules.Active.{is_active}
use catenary_backend.Schedules.Active.Laws.{RunsLater, AddedLater, is_active_lem}
use catenary_backend.Schedules.Prune.{include_only_route_types}
use catenary_backend.Schedules.Prune.Tables.{IsMap}
use catenary_backend.Schedules.Prune.Laws.{IsFiltered, include_only_route_types-IsFiltered}
use catenary_backend.Common.{filter}
use catenary_backend.Common.Int.{pos}
use catenary_backend.Common.Loops.{for_each}
use catenary_backend.Schedules.Services.{
  CalendarRow, CalendarDateRow, Calendars, make_weekdays, exception_of, insert, insert_calendars,
  put_exception, with_exception, updated_entry, add_calendar_date,
  make_calendar_structure_from_pg_single_chateau,
}
use catenary_backend.Schedules.Services.Laws.{
  is_running, last_row, is_exception_for, is_calendar_for, by_rows, datetime_in_service_lem,
}
use catenary_backend.Common.{◌+◌, ◌*◌, ◌/◌, In}
use catenary_backend.Common.Int.{ℤ, pos_part}
use catenary_backend.Schedules.Services.{CalendarUnified}
use catenary_backend.Schedules.Ranges.{TripToFindScheduleFor, find_service_ranges}
use catenary_backend.Schedules.Ranges.Laws.{
  BeginsAt, Lookback, latest, InSpan, find_service_ranges_lem,
}
use catenary_backend.Common.{arith}
use catenary_backend.Schedules.Clock.{
  digits, pad, convert_hhmmss_to_seconds, number_of_seconds_to_hhmmss,
}
use catenary_backend.Schedules.Clock.RoundTrip.{
  convert_hhmmss_to_seconds-number_of_seconds_to_hhmmss,
}

abbrev weekday_of : ℕ → Weekday
weekday_of d = if d % 2 == 0 then sun else tue

abbrev sundays : Calendar
sundays = record {
  monday = false;
  tuesday = false;
  wednesday = false;
  thursday = false;
  friday = false;
  saturday = false;
  sunday = true;
  start_date = 10;
  end_date = 20;
}

abbrev closed_on : ℕ → CalendarDate
closed_on d = record { date = d; exception_type = deleted }

is_active_lem_example :
    (is_active weekday_of (some sundays) (some (closed_on 20 ∷ [])) 17 ≡ true) ↔ (
      RunsLater weekday_of (some sundays) (some (closed_on 20 ∷ [])) 17
      ⊎ AddedLater (some (closed_on 20 ∷ [])) 17)
is_active_lem_example = is_active_lem weekday_of (some sundays) (some (closed_on 20 ∷ [])) 17

abbrev small_feed : Gtfs ℕ
small_feed = record {
  routes = ("metro", record { route_type = 1 }) ∷ ("bus", record { route_type = 3 }) ∷ [];
  trips =
      (
        "m1",
        record {
          route_id = "metro";
          service_id = "daily";
          shape_id = some "line";
          stop_ids = "platform" ∷ [];
        },
      )
      ∷ (
        "b1",
        record { route_id = "bus"; service_id = "daily"; shape_id = none; stop_ids = "kerb" ∷ [] },
      )
      ∷ [];
  stops =
      ("platform", record { parent_station = some "station" })
      ∷ ("station", record { parent_station = none })
      ∷ ("kerb", record { parent_station = none })
      ∷ [];
  shapes = ("line", 5) ∷ [];
  calendar = ("daily", sundays) ∷ [];
  calendar_dates = [];
}

routes-IsMap : IsMap small_feed.routes
unfolding IsMap get
routes-IsMap id v (inl e) = subst (λ x. get small_feed.routes x.0 ≡ some x.1) (sym e) refl
routes-IsMap id v (inr (inl e)) = subst (λ x. get small_feed.routes x.0 ≡ some x.1) (sym e) refl
routes-IsMap id v (inr (inr m)) = absurd m

trips-IsMap : IsMap small_feed.trips
unfolding IsMap get
trips-IsMap id v (inl e) = subst (λ x. get small_feed.trips x.0 ≡ some x.1) (sym e) refl
trips-IsMap id v (inr (inl e)) = subst (λ x. get small_feed.trips x.0 ≡ some x.1) (sym e) refl
trips-IsMap id v (inr (inr m)) = absurd m

include_only_route_types-IsFiltered_example :
    (r : Gtfs ℕ) × (include_only_route_types small_feed (1 ∷ []) true ≡ some r)
    × IsFiltered small_feed r (1 ∷ [])
include_only_route_types-IsFiltered_example =
    include_only_route_types-IsFiltered small_feed (1 ∷ []) true routes-IsMap trips-IsMap

abbrev sunday_row : CalendarRow
sunday_row = record {
  service_id = "daily";
  monday = false;
  tuesday = false;
  wednesday = false;
  thursday = false;
  friday = false;
  saturday = false;
  sunday = true;
  gtfs_start_date = 10;
  gtfs_end_date = 20;
}

abbrev closed_row : CalendarDateRow
closed_row = record { service_id = "daily"; gtfs_date = 14; exception_type = pos 2 }

abbrev daily_calendars : Calendars
daily_calendars =
    (
      "daily",
      record {
        id = "daily";
        general_calendar = some (record { days = sun ∷ []; start_date = 10; end_date = 20 });
        exceptions = some ((14, deleted) ∷ []);
      },
    )
    ∷ []

calendars_made :
    make_calendar_structure_from_pg_single_chateau (sunday_row ∷ []) (closed_row ∷ [])
    ≡ some daily_calendars
unfolding make_calendar_structure_from_pg_single_chateau insert_calendars add_calendar_date
    updated_entry with_exception put_exception insert exception_of make_weekdays get for_each filter
calendars_made = refl

datetime_in_service_lem_example :
    is_running weekday_of (get daily_calendars "daily") 14
    ≡ by_rows weekday_of
        (last_row (is_exception_for "daily" 14) (closed_row ∷ []) none)
        (last_row (is_calendar_for "daily") (sunday_row ∷ []) none)
        14
datetime_in_service_lem_example =
    datetime_in_service_lem weekday_of (sunday_row ∷ []) (closed_row ∷ []) calendars_made "daily" 14

abbrev daily : CalendarUnified
daily = record {
  id = "daily";
  general_calendar = some (record { days = sun ∷ []; start_date = 10; end_date = 20 });
  exceptions = none;
}

abbrev frequent_trip : TripToFindScheduleFor
frequent_trip = record {
  time_since_start_of_service_date = pos 28800;
  frequency = some (36000 ∷ 72000 ∷ []);
}

abbrev date_at : ℤ → ℕ
date_at t = pos_part t / 86400

abbrev noon_of : ℕ → Option ℤ
noon_of d = some (pos (d * 86400 + 43200))

frequent_trip-Lookback : Lookback weekday_of date_at noon_of frequent_trip.frequency 72000
frequent_trip-Lookback = latest (36000 ∷ 72000 ∷ []) 72000 (inr (inl refl)) (λ other m. elim m [
  | inl q ↦ omega (arith, q)
  | inr (inl q) ↦ omega (arith, q)
  | inr (inr k) ↦ absurd k
])

find_service_ranges_lem_example :
    (r : List (ℕ × ℤ)) × (find_service_ranges weekday_of date_at noon_of daily frequent_trip
        (pos 1200000)
        (pos 3600)
        (pos 86400)
      ≡ some r)
    × ((d : ℕ) (t : ℤ)
        → In {A = ℕ × ℤ} (d, t) r ↔ (
            InSpan weekday_of date_at noon_of daily frequent_trip
              (pos 1200000)
              (pos 3600)
              (pos 86400)
              72000
              d
            × BeginsAt weekday_of date_at noon_of d t))
find_service_ranges_lem_example =
    find_service_ranges_lem weekday_of date_at noon_of daily frequent_trip (pos 1200000) (pos 3600)
      (pos 86400) 72000 frequent_trip-Lookback (λ d span. (pos (d * 86400 + 43200), refl))

-- 12:34:56
clock_printed : number_of_seconds_to_hhmmss 45296 ≡ 49 ∷ 50 ∷ 58 ∷ 51 ∷ 52 ∷ 58 ∷ 53 ∷ 54 ∷ []
unfolding number_of_seconds_to_hhmmss pad digits
clock_printed = refl

convert_hhmmss_to_seconds-number_of_seconds_to_hhmmss_example :
    convert_hhmmss_to_seconds (number_of_seconds_to_hhmmss 45296) ≡ some 45296
convert_hhmmss_to_seconds-number_of_seconds_to_hhmmss_example =
    convert_hhmmss_to_seconds-number_of_seconds_to_hhmmss 45296 (omega arith)
