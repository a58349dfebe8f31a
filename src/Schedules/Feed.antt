-- ===== src/Schedules/Feed.antt =====
-- The fields of a parsed GTFS feed that src/schedule_filtering/mod.rs reads. Dates are day
-- numbers, and a table keyed by an id is an association list.
use Prim.Native.String.{String}
use text.Mathlib.Text.{◌==◌}
use catenary_backend.Common.{ℕ, Bool, Option, none, some, List, [], ◌∷◌, if◌then◌else◌, any, map}

pub data Weekday : Type 0 where
  mon : Weekday
  tue : Weekday
  wed : Weekday
  thu : Weekday
  fri : Weekday
  sat : Weekday
  sun : Weekday

pub data Exception : Type 0 where
  added : Exception
  deleted : Exception

pub record Calendar : Type 0 where
  pub monday : Bool
  pub tuesday : Bool
  pub wednesday : Bool
  pub thursday : Bool
  pub friday : Bool
  pub saturday : Bool
  pub sunday : Bool
  pub start_date : ℕ
  pub end_date : ℕ

pub record CalendarDate : Type 0 where
  pub date : ℕ
  pub exception_type : Exception

pub record Route : Type 0 where
  pub route_type : ℕ

pub record Trip : Type 0 where
  pub route_id : String
  pub service_id : String
  pub shape_id : Option String
  pub stop_ids : List String  -- of the stop times

pub record Stop : Type 0 where
  pub parent_station : Option String

-- The points of a shape are not looked at.
pub record Gtfs (Shape : Type 0) : Type 0 where
  pub routes : List (String × Route)
  pub trips : List (String × Trip)
  pub stops : List (String × Stop)
  pub shapes : List (String × Shape)
  pub calendar : List (String × Calendar)
  pub calendar_dates : List (String × List CalendarDate)

-- set.contains(id)
unfoldable pub contains : List String → String → Bool
contains ids id = any (λ other. other == id) ids

unfoldable pub get : {V : Type 0} → List (String × V) → String → Option V
get [] id = none
get (entry ∷ table) id = let found = get table id in if entry.0 == id then some entry.1 else found

abbrev pub keys : {V : Type 0} → List (String × V) → List String
keys table = map (λ entry. entry.0) table
