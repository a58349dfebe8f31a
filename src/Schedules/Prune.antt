-- ===== src/Schedules/Prune.antt =====
-- `include_only_route_types` and `minimum_day_filter` of src/schedule_filtering/mod.rs. `none` is
-- a panic of an `unwrap`. A set of ids is the list of its elements, since only membership is used.
pub mod Tables
pub mod Laws
use Prim.Native.String.{String}
use text.Mathlib.Text.{◌==◌}
use catenary_backend.Common.{
  ℕ, zero, suc, ◌+◌, ◌-◌, Bool, true, false, not, Option, none, some, List, [], ◌∷◌, ◌++◌,
  if◌then◌else◌, any, filter, map, ◌>>=◌,
}
use catenary_backend.Common as Common
use catenary_backend.Common.Loops.{for_each}
use catenary_backend.Schedules.Feed.{Weekday, Route, Trip, Stop, Gtfs, contains, get, keys}
use catenary_backend.Schedules.Active.{is_active}

-- The ids of the rows that pass the test.
unfoldable pub ids_where : {V : Type 0} → (V → Bool) → List (String × V) → List String
ids_where test table = keys (filter (λ entry. test entry.1) table)

-- .filter(|(id, _)| ids.contains(id)), and its opposite `retain(|id, _| !ids.contains(id))`
unfoldable pub keep_ids : {V : Type 0} → List String → List (String × V) → List (String × V)
keep_ids ids table = filter (λ entry. contains ids entry.0) table

unfoldable pub drop_ids : {V : Type 0} → List String → List (String × V) → List (String × V)
drop_ids ids table = filter (λ entry. not (contains ids entry.0)) table

abbrev pub option_list : Option String → List String
option_list none = []
option_list (some id) = id ∷ []

-- What the kept trips use: `keep_stop_ids` and `keep_shapes`.
pub record Used : Type 0 where
  pub stop_ids : List String
  pub shape_ids : List String

-- The body of the loop over `trips_to_keep`.
unfoldable pub use_trip : List (String × Trip) → String → Used → Option Used
use_trip trips trip_id used = do
  trip ← get trips trip_id
  some (record {
    stop_ids = used.stop_ids ++ trip.stop_ids;
    shape_ids = used.shape_ids ++ option_list trip.shape_id;
  })

-- The station of a station, when the feed has the latter.
unfoldable pub grandparents : Option Stop → List String
grandparents none = []
grandparents (some parent_stop) = option_list parent_stop.parent_station

-- if let Some(parent_station_id) = &stop.parent_station
unfoldable pub parents : List (String × Stop) → Option String → List String
parents stops none = []
parents stops (some parent_station_id) =
    parent_station_id ∷ grandparents (get stops parent_station_id)

unfoldable pub stations_of : List (String × Stop) → Option Stop → List String
stations_of stops none = []
stations_of stops (some stop) = parents stops stop.parent_station

-- The loop that fills `stop_ids_to_add`.
unfoldable pub stop_ids_to_add : List (String × Stop) → List String → List String
stop_ids_to_add stops [] = []
stop_ids_to_add stops (stop_id ∷ ids) =
    stations_of stops (get stops stop_id) ++ stop_ids_to_add stops ids

-- The end of the filter, where rows that are not needed are removed.
unfoldable pub keep_rows :
    {Shape : Type 0}
    → Gtfs Shape
    → List String
    → List String
    → List String
    → List String
    → Bool
    → Gtfs Shape
keep_rows gtfs route_ids_to_keep trips_to_keep keep_stop_ids keep_shapes false = record gtfs {
  routes = keep_ids route_ids_to_keep gtfs.routes;
  trips = keep_ids trips_to_keep gtfs.trips;
}
keep_rows gtfs route_ids_to_keep trips_to_keep keep_stop_ids keep_shapes true = record gtfs {
  routes = keep_ids route_ids_to_keep gtfs.routes;
  trips = keep_ids trips_to_keep gtfs.trips;
  stops = keep_ids keep_stop_ids gtfs.stops;
  shapes = keep_ids keep_shapes gtfs.shapes;
}

unfoldable pub include_only_route_types :
    {Shape : Type 0} → Gtfs Shape → List ℕ → Bool → Option (Gtfs Shape)
include_only_route_types gtfs route_types delete_shapes_and_stops = do
  let route_ids_to_keep =
      ids_where (λ route. any (λ t. Common.◌==◌ t route.route_type) route_types) gtfs.routes
  let trips_to_keep = ids_where (λ trip. contains route_ids_to_keep trip.route_id) gtfs.trips
  used ← for_each (use_trip gtfs.trips) trips_to_keep (record { stop_ids = []; shape_ids = [] })
  let keep_stop_ids = used.stop_ids ++ stop_ids_to_add gtfs.stops used.stop_ids
  some (
      keep_rows gtfs route_ids_to_keep trips_to_keep keep_stop_ids used.shape_ids
        delete_shapes_and_stops)

-- *counts.entry(id).or_insert(0) += 1
unfoldable pub increment : String → List (String × ℕ) → List (String × ℕ)
increment id [] = (id, 1) ∷ []
increment id (entry ∷ counts) =
    let rest = increment id counts in
    if entry.0 == id then (entry.0, entry.1 + 1) ∷ counts else entry ∷ rest

-- The first loop over the trips: how many of them have each route, or each shape.
unfoldable pub count_trips :
    (Trip → Option String) → List (String × Trip) → List (String × ℕ) → List (String × ℕ)
count_trips key [] counts = counts
count_trips key (entry ∷ trips) counts = count_trips key trips (count (key entry.1))
  where
    count : Option String → List (String × ℕ)
    count none = counts
    count (some id) = increment id counts

-- *counts.get_mut(id).unwrap() -= 1, with the count that is left
unfoldable pub decrement : String → List (String × ℕ) → Option (ℕ × List (String × ℕ))
decrement id [] = none
decrement id (entry ∷ counts) =
    let rest = decrement id counts in
    if entry.0 == id
    then some (entry.1 - 1, (entry.0, entry.1 - 1) ∷ counts)
    else (rest >>= λ r. some (r.0, entry ∷ r.1))

-- The counts, and the ids whose count came down to 0.
pub record Emptied : Type 0 where
  pub counts : List (String × ℕ)
  pub ids : List String

unfoldable pub remove_one : Option String → Emptied → Option Emptied
remove_one none e = some e
remove_one (some id) e = do
  (left, counts) ← decrement id e.counts
  some (record { counts = counts; ids = if Common.◌==◌ left 0 then id ∷ e.ids else e.ids })

-- The second loop over the trips, for those in `trips_removed`.
unfoldable pub remove_trip :
    (Trip → Option String) → List String → String × Trip → Emptied → Option Emptied
remove_trip key trips_removed entry e =
    if contains trips_removed entry.0 then remove_one (key entry.1) e else some e

unfoldable pub emptied_ids :
    (Trip → Option String) → List String → List (String × Trip) → Option (List String)
emptied_ids key trips_removed trips = do
  e ←
      for_each (remove_trip key trips_removed) trips
        (record { counts = count_trips key trips []; ids = [] })
  some e.ids

-- `date.weekday()` of chrono is a parameter.
module _ (weekday : ℕ → Weekday) where
  unfoldable pub throwout_calendar_list : {Shape : Type 0} → Gtfs Shape → ℕ → List String
  throwout_calendar_list gtfs naive_date =
      filter
        (λ id.
          not (is_active weekday (get gtfs.calendar id) (get gtfs.calendar_dates id) naive_date))
        (keys gtfs.calendar ++ keys gtfs.calendar_dates)

  unfoldable pub minimum_day_filter : {Shape : Type 0} → Gtfs Shape → ℕ → Option (Gtfs Shape)
  minimum_day_filter gtfs naive_date = do
    let throwout = throwout_calendar_list gtfs naive_date
    let trips_removed = ids_where (λ trip. contains throwout trip.service_id) gtfs.trips
    routes_to_remove ← emptied_ids (λ trip. some trip.route_id) trips_removed gtfs.trips
    shapes_to_remove ← emptied_ids (λ trip. trip.shape_id) trips_removed gtfs.trips
    some (record gtfs {
      calendar = drop_ids throwout gtfs.calendar;
      calendar_dates = drop_ids throwout gtfs.calendar_dates;
      trips = drop_ids trips_removed gtfs.trips;
      routes = drop_ids routes_to_remove gtfs.routes;
      shapes = drop_ids shapes_to_remove gtfs.shapes;
    })
