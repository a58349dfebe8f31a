-- ===== src/Schedules/Services.antt =====
-- The days on which a service runs: the calendars of src/lib.rs, which are built from rows of the
-- database (src/models.rs). A BTreeMap is an association list, since its order is not used.
pub mod Laws
use Prim.Native.String.{String}
use text.Mathlib.Text.{◌==◌}
use catenary_backend.Common.{
  ℕ, zero, suc, ◌+◌, ◌-◌, Bool, true, false, not, ◌&&◌, Option, none, some, List, [], ◌∷◌, ltb, leb,
  if◌then◌else◌, any, filter, map, ◌>>=◌,
}
use catenary_backend.Common as Common
use catenary_backend.Common.Int.{ℤ, pos, negsuc, ◌+ℤ◌, ◌-ℤ◌}
use catenary_backend.Common.Loops.{for_each}
use catenary_backend.Common.Sorting.{sort_by}
use catenary_backend.Schedules.Feed.{
  Weekday, mon, tue, wed, thu, fri, sat, sun, Exception, added, deleted, get,
}

pub record GeneralCalendar : Type 0 where
  pub days : List Weekday
  pub start_date : ℕ
  pub end_date : ℕ

pub record CalendarUnified : Type 0 where
  pub id : String
  pub general_calendar : Option GeneralCalendar
  pub exceptions : Option (List (ℕ × Exception))

-- models::Calendar and models::CalendarDate
pub record CalendarRow : Type 0 where
  pub service_id : String
  pub monday : Bool
  pub tuesday : Bool
  pub wednesday : Bool
  pub thursday : Bool
  pub friday : Bool
  pub saturday : Bool
  pub sunday : Bool
  pub gtfs_start_date : ℕ
  pub gtfs_end_date : ℕ

pub record CalendarDateRow : Type 0 where
  pub service_id : String
  pub gtfs_date : ℕ
  pub exception_type : ℤ  -- i16

unfoldable pub make_weekdays : CalendarRow → List Weekday
make_weekdays calendar =
    map (λ (entry : Bool × Weekday). entry.1)
      (filter (λ (entry : Bool × Weekday). entry.0)
        ((calendar.monday, mon)
          ∷ (calendar.tuesday, tue)
          ∷ (calendar.wednesday, wed)
          ∷ (calendar.thursday, thu)
          ∷ (calendar.friday, fri)
          ∷ (calendar.saturday, sat)
          ∷ (calendar.sunday, sun)
          ∷ []))

-- Any other number panics.
unfoldable pub exception_of : ℤ → Option Exception
exception_of (pos n) =
    if Common.◌==◌ n 1 then some added else if Common.◌==◌ n 2 then some deleted else none
exception_of (negsuc n) = none

-- calendar_structures.insert(id, value)
unfoldable pub insert :
    String → CalendarUnified → List (String × CalendarUnified) → List (String × CalendarUnified)
insert id value [] = (id, value) ∷ []
insert id value (entry ∷ table) =
    let rest = insert id value table in if entry.0 == id then (id, value) ∷ table else entry ∷ rest

-- entry.insert(date, exception), and exceptions.get(&date)
unfoldable pub insert_exception : ℕ → Exception → List (ℕ × Exception) → List (ℕ × Exception)
insert_exception date exception [] = (date, exception) ∷ []
insert_exception date exception (entry ∷ table) =
    let rest = insert_exception date exception table in
    if Common.◌==◌ entry.0 date then (date, exception) ∷ table else entry ∷ rest

unfoldable pub get_exception : List (ℕ × Exception) → ℕ → Option Exception
get_exception [] date = none
get_exception (entry ∷ table) date =
    let found = get_exception table date in if Common.◌==◌ entry.0 date then some entry.1 else found

abbrev pub Calendars : Type 0
Calendars = List (String × CalendarUnified)

-- The first loop.
unfoldable pub insert_calendars : List CalendarRow → Calendars → Calendars
insert_calendars [] structures = structures
insert_calendars (calendar ∷ rows) structures = insert_calendars rows (
    insert calendar.service_id
      (record {
        id = calendar.service_id;
        general_calendar = some (record {
          days = make_weekdays calendar;
          start_date = calendar.gtfs_start_date;
          end_date = calendar.gtfs_end_date;
        });
        exceptions = none;
      })
      structures)

unfoldable pub empty_exception_from_calendar_date : CalendarDateRow → Option CalendarUnified
empty_exception_from_calendar_date x = do
  exception ← exception_of x.exception_type
  some (record {
    id = x.service_id;
    general_calendar = none;
    exceptions = some ((x.gtfs_date, exception) ∷ []);
  })

-- if let Some(entry) = &mut calendar_unified.exceptions
unfoldable pub put_exception : ℕ → Exception → Option (List (ℕ × Exception)) → List (ℕ × Exception)
put_exception date exception none = (date, exception) ∷ []
put_exception date exception (some entry) = insert_exception date exception entry

-- An occupied entry.
unfoldable pub with_exception : ℕ → Exception → CalendarUnified → CalendarUnified
with_exception date exception calendar_unified = record calendar_unified {
  exceptions = some (put_exception date exception calendar_unified.exceptions);
}

-- The entry of the service, or a vacant one.
unfoldable pub updated_entry :
    CalendarDateRow → Exception → Option CalendarUnified → Option CalendarUnified
updated_entry calendar_date exception none = empty_exception_from_calendar_date calendar_date
updated_entry calendar_date exception (some calendar_unified) =
    some (with_exception calendar_date.gtfs_date exception calendar_unified)

-- The body of the second loop.
unfoldable pub add_calendar_date : CalendarDateRow → Calendars → Option Calendars
add_calendar_date calendar_date structures = do
  exception ← exception_of calendar_date.exception_type
  entry ← updated_entry calendar_date exception (get structures calendar_date.service_id)
  some (insert calendar_date.service_id entry structures)

unfoldable pub make_calendar_structure_from_pg_single_chateau :
    List CalendarRow → List CalendarDateRow → Option Calendars
make_calendar_structure_from_pg_single_chateau calendars calendar_dates =
    for_each add_calendar_date calendar_dates (insert_calendars calendars [])

abbrev pub same_weekday : Weekday → Weekday → Bool
same_weekday a b = Common.◌==◌ (number a) (number b)
  where
    number : Weekday → ℕ
    number mon = 0
    number tue = 1
    number wed = 2
    number thu = 3
    number fri = 4
    number sat = 5
    number sun = 6

-- `date.weekday()` of chrono is a parameter.
module _ (weekday : ℕ → Weekday) where
  -- The first test of `datetime_in_service`.
  unfoldable pub in_general : Option GeneralCalendar → ℕ → Bool
  in_general none input_date = false
  in_general (some calendar_general) input_date =
      any (same_weekday (weekday input_date)) calendar_general.days
      && (leb calendar_general.start_date input_date && leb input_date calendar_general.end_date)

  unfoldable pub with_exceptions : Option Exception → Bool → Bool
  with_exceptions none answer = answer
  with_exceptions (some added) answer = true
  with_exceptions (some deleted) answer = false

  unfoldable pub datetime_in_service : CalendarUnified → ℕ → Bool
  datetime_in_service service input_date =
      with_exceptions (service.exceptions >>= λ exceptions. get_exception exceptions input_date)
        (in_general service.general_calendar input_date)
