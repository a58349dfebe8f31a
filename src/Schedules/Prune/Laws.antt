-- ===== src/Schedules/Prune/Laws.antt =====
-- What `include_only_route_types` leaves of a feed.
use Prim.Native.String.{String}
use mathlib.Core.Path.{subst}
use catenary_backend.Common.{
  ℕ, Bool, true, false, not, Option, none, some, List, [], ◌∷◌, ◌++◌, ◌≡◌, ◌⊎◌, ◌↔◌, inl, inr, refl,
  sym, ap, ◌∙◌, if◌then◌else◌, any, filter, map, ◌>>=◌, >>=-eq-some, some-injective, ==_iff,
  Bool-cases, true_is_false, any-In, In-any, In, In-append, In-append_left, In-append_right,
  In-filter, In-filter_intro, arith,
}
use catenary_backend.Common as Common
use catenary_backend.Common.Loops.{for_each, for_each_holds}
use catenary_backend.Schedules.Feed.{Route, Trip, Stop, Gtfs, contains, get}
use catenary_backend.Schedules.Prune.Tables.{
  IsMap, contains-In, In-contains, get-keep_ids, In-keys, ids_where-In, kept-ids_where,
  ids_where-kept,
}
use catenary_backend.Schedules.Prune.{
  ids_where, keep_ids, option_list, Used, use_trip, parents, stations_of, stop_ids_to_add,
  keep_rows, include_only_route_types,
}

-- A loop over ids that all stand in the table does not panic.
use_trips-some :
    (trips : List (String × Trip)) (ids : List String) (u : Used)
    → ((id : String) → In id ids → (t : Trip) × (get trips id ≡ some t))
    → (w : Used) × (for_each (use_trip trips) ids u ≡ some w)
unfolding for_each use_trip
use_trips-some trips [] u present = (u, refl)
use_trips-some trips (id ∷ ids) u present =
    let (t, found) = present id (inl refl) in
    let (w, e) =
      use_trips-some trips ids
        (record {
          stop_ids = u.stop_ids ++ t.stop_ids;
          shape_ids = u.shape_ids ++ option_list t.shape_id;
        })
        (λ other m. present other (inr m)) in
    (w, rw found e)

-- What a trip of the loop uses is among what the loop collects.
module _ (trips : List (String × Trip)) (id : String) (t : Trip)
    (found : get trips id ≡ some t) where
  collects :
      (pick : Used → List String) (uses : Trip → List String)
      → ((u : Used) (trip : Trip)
          → pick (record {
            stop_ids = u.stop_ids ++ trip.stop_ids;
            shape_ids = u.shape_ids ++ option_list trip.shape_id;
          })
            ≡ pick u ++ uses trip)
      → (ids : List String) (u : Used) {w : Used} → In id ids
      → for_each (use_trip trips) ids u ≡ some w
      → (s : String) → In s (uses t)
      → In s (pick w)
  unfolding use_trip
  collects pick uses adds ids u m e s used =
      for_each_holds (λ x. In s (pick x)) (use_trip trips) id ids u
        (λ y x v q step.
          let (trip, f, r) = >>=-eq-some (get trips y) _ step in
          subst (λ z. In s (pick z)) (some-injective r)
            (rw (adds x trip) (In-append_left s (pick x) (uses trip) q)))
        (λ x v step.
          let (trip, f, r) = >>=-eq-some (get trips id) _ step in
          subst (λ z. In s (pick z)) (some-injective r)
            (rw (adds x trip) (
              In-append_right s (pick x) (uses trip)
                (subst (λ z. In s (uses z)) (some-injective (sym found ∙ f)) used))))
        m e

-- The station of each stop that is used is kept too.
parent-In :
    (stops : List (String × Stop)) (ids : List String) (s p : String) (st : Stop)
    → In s ids
    → get stops s ≡ some st
    → st.parent_station ≡ some p
    → In p (stop_ids_to_add stops ids)
unfolding stop_ids_to_add stations_of parents
parent-In stops [] s p st m found parent = absurd m
parent-In stops (id ∷ ids) s p st (inl e) found parent =
    In-append_left p (stations_of stops (get stops id)) (stop_ids_to_add stops ids)
      (rw (sym e) (rw found (rw parent (inl refl))))
parent-In stops (id ∷ ids) s p st (inr m) found parent =
    In-append_right p (stations_of stops (get stops id)) (stop_ids_to_add stops ids)
      (parent-In stops ids s p st m found parent)

has_type-In : (types : List ℕ) (t : ℕ) → (any (λ x. Common.◌==◌ x t) types ≡ true) ↔ In t types
has_type-In types t = (
  λ h.
      let (x, m, e) = any-In (λ x. Common.◌==◌ x t) types h in
      subst (λ y. In y types) ((==_iff x t).0 e) m,
  λ m. In-any (λ x. Common.◌==◌ x t) types t m ((==_iff t t).1 refl),
)

module _ {Shape : Type 0} where
  -- What the trip refers to is in the filtered feed if it was in the feed: its route, its stops,
  -- their stations, and its shape.
  pub record IsServed (gtfs r : Gtfs Shape) (trip : Trip) : Type 0 where
    pub route : get r.routes trip.route_id ≡ get gtfs.routes trip.route_id
    pub stop : (s : String) → In s trip.stop_ids → get r.stops s ≡ get gtfs.stops s
    pub station :
        (s p : String) (st : Stop)
        → In s trip.stop_ids
        → get gtfs.stops s ≡ some st
        → st.parent_station ≡ some p
        → get r.stops p ≡ get gtfs.stops p
    pub shape : (s : String) → trip.shape_id ≡ some s → get r.shapes s ≡ get gtfs.shapes s

  -- The routes that are left are those of the types, and the trips that are left are served.
  pub record IsFiltered (gtfs r : Gtfs Shape) (types : List ℕ) : Type 0 where
    pub routes :
        (id : String) (route : Route)
        → (get r.routes id ≡ some route)
          ↔ ((get gtfs.routes id ≡ some route) × In route.route_type types)
    pub trips :
        (id : String) (trip : Trip)
        → get r.trips id ≡ some trip
        → (get gtfs.trips id ≡ some trip) × IsServed gtfs r trip

  module _ (gtfs : Gtfs Shape) (types : List ℕ) (routes_map : IsMap gtfs.routes)
      (trips_map : IsMap gtfs.trips) where
    abbrev of_types : Route → Bool
    of_types route = any (λ t. Common.◌==◌ t route.route_type) types

    abbrev kept_trips : List String
    kept_trips =
        ids_where (λ trip. contains (ids_where of_types gtfs.routes) trip.route_id) gtfs.trips

    kept_trips-present :
        (id : String) → In id kept_trips → (t : Trip) × (get gtfs.trips id ≡ some t)
    unfolding ids_where IsMap
    kept_trips-present id m =
        let served : Trip → Bool =
          λ trip. contains (ids_where of_types gtfs.routes) trip.route_id in
        let (t, n) = In-keys (filter (λ entry. served entry.1) gtfs.trips) id m in
        (t, trips_map id t (In-filter (λ entry. served entry.1) (id, t) gtfs.trips n).0)

    routes-Filtered :
        (id : String) (route : Route)
        → (get (keep_ids (ids_where of_types gtfs.routes) gtfs.routes) id ≡ some route)
          ↔ ((get gtfs.routes id ≡ some route) × In route.route_type types)
    routes-Filtered id route =
        let (to, back) = has_type-In types route.route_type in
        (
          λ h.
              let (found, t) = kept-ids_where of_types gtfs.routes id route routes_map h in
              (found, to t),
          λ (found, t). ids_where-kept of_types gtfs.routes id route routes_map found (back t),
        )

    -- What the loop over the kept trips has collected, and one of these trips.
    module _ (w : Used)
        (e : for_each (use_trip gtfs.trips) kept_trips (record { stop_ids = []; shape_ids = [] })
          ≡ some w)
        (id : String) (trip : Trip)
        (kept : get (keep_ids kept_trips gtfs.trips) id ≡ some trip) where
      kept_row :
          (get gtfs.trips id ≡ some trip)
          × (contains (ids_where of_types gtfs.routes) trip.route_id ≡ true)
      kept_row =
          kept-ids_where (λ t. contains (ids_where of_types gtfs.routes) t.route_id) gtfs.trips id
            trip trips_map kept

      is_kept_trip : In id kept_trips
      is_kept_trip =
          let (to, back) =
            ids_where-In (λ t. contains (ids_where of_types gtfs.routes) t.route_id) gtfs.trips id
              trip trips_map kept_row.0 in
          contains-In kept_trips id (back kept_row.1)

      stop_used : (s : String) → In s trip.stop_ids → In s w.stop_ids
      stop_used =
          collects gtfs.trips id trip kept_row.0 (λ u. u.stop_ids) (λ t. t.stop_ids) (λ u t. refl)
            kept_trips (record { stop_ids = []; shape_ids = [] }) is_kept_trip e

      shape_used : (s : String) → In s (option_list trip.shape_id) → In s w.shape_ids
      shape_used =
          collects gtfs.trips id trip kept_row.0 (λ u. u.shape_ids) (λ t. option_list t.shape_id)
            (λ u t. refl) kept_trips (record { stop_ids = []; shape_ids = [] }) is_kept_trip e

      abbrev stop_ids : List String
      stop_ids = w.stop_ids ++ stop_ids_to_add gtfs.stops w.stop_ids

      trip-IsServed :
          (delete : Bool)
          → IsServed gtfs
              (keep_rows gtfs
                (ids_where of_types gtfs.routes)
                kept_trips
                stop_ids
                w.shape_ids
                delete)
              trip
      unfolding keep_rows
      trip-IsServed false = record {
        route = get-keep_ids (ids_where of_types gtfs.routes) gtfs.routes trip.route_id kept_row.1;
        stop = λ s m. refl;
        station = λ s p st m f q. refl;
        shape = λ s q. refl;
      }
      trip-IsServed true = record {
        route = get-keep_ids (ids_where of_types gtfs.routes) gtfs.routes trip.route_id kept_row.1;
        stop = λ s m.
            get-keep_ids stop_ids gtfs.stops s
              (In-contains stop_ids s (In-append_left s w.stop_ids _ (stop_used s m)));
        station = λ s p st m f q. get-keep_ids stop_ids gtfs.stops p (
            In-contains stop_ids p (
              In-append_right p w.stop_ids _
                (parent-In gtfs.stops w.stop_ids s p st (stop_used s m) f q)));
        shape = λ s q. get-keep_ids w.shape_ids gtfs.shapes s (
            In-contains w.shape_ids s
              (shape_used s (subst (λ o. In s (option_list o)) (sym q) (inl refl))));
      }

  keep_rows-IsFiltered :
      (gtfs : Gtfs Shape) (types : List ℕ) (delete : Bool) (routes_map : IsMap gtfs.routes)
      (trips_map : IsMap gtfs.trips) (w : Used)
      → for_each
          (use_trip gtfs.trips)
          (kept_trips gtfs types routes_map trips_map)
          (record { stop_ids = []; shape_ids = [] })
        ≡ some w
      → IsFiltered gtfs
          (keep_rows gtfs
            (ids_where (of_types gtfs types routes_map trips_map) gtfs.routes)
            (kept_trips gtfs types routes_map trips_map)
            (w.stop_ids ++ stop_ids_to_add gtfs.stops w.stop_ids)
            w.shape_ids
            delete)
          types
  unfolding keep_rows
  keep_rows-IsFiltered gtfs types true routes_map trips_map w e = record {
    routes = routes-Filtered gtfs types routes_map trips_map;
    trips = λ id trip kept. (
      (kept_row gtfs types routes_map trips_map w e id trip kept).0,
      trip-IsServed gtfs types routes_map trips_map w e id trip kept true,
    );
  }
  keep_rows-IsFiltered gtfs types false routes_map trips_map w e = record {
    routes = routes-Filtered gtfs types routes_map trips_map;
    trips = λ id trip kept. (
      (kept_row gtfs types routes_map trips_map w e id trip kept).0,
      trip-IsServed gtfs types routes_map trips_map w e id trip kept false,
    );
  }

  -- On a feed whose routes and trips stand under different ids the filter does not panic. It
  -- leaves the routes of the given types, and of the trips some with all that they refer to: the
  -- route, the stops, their stations, and the shape.
  pub include_only_route_types-IsFiltered :
      (gtfs : Gtfs Shape) (types : List ℕ) (delete_shapes_and_stops : Bool)
      → IsMap gtfs.routes
      → IsMap gtfs.trips
      → (r : Gtfs Shape) × (include_only_route_types gtfs types delete_shapes_and_stops ≡ some r)
        × IsFiltered gtfs r types
  unfolding include_only_route_types
  include_only_route_types-IsFiltered gtfs types delete routes_map trips_map =
      let (w, e) =
        use_trips-some gtfs.trips (kept_trips gtfs types routes_map trips_map)
          (record { stop_ids = []; shape_ids = [] })
          (kept_trips-present gtfs types routes_map trips_map) in
      (
        keep_rows gtfs _ _ _ _ delete,
        rw e refl,
        keep_rows-IsFiltered gtfs types delete routes_map trips_map w e,
      )
