-- ===== src/Realtime/Examples.antt =====
-- A feed of one trip for the theorems on src/compact_formats.rs.
use catenary_backend.Common.{ℕ, ◌+◌, ◌≡◌, none, some, [], ◌∷◌, arith}
use catenary_backend.Common.Int.{pos, negsuc}
use catenary_backend.Realtime.Compact.{
  Payload, StopTimeEvent, CompactStopTimeUpdate, FeedMessage, reference_epoch_of, from_feed_message,
  to_feed_message,
}
use catenary_backend.Realtime.Compact.Laws.{
  IsEpoch, IsNear, FitsEvent, FitsUpdate, FitsTrip, FitsEntity, Fits,
  to_feed_message-from_feed_message,
}
use catenary_backend.Realtime.Closest.{find_closest_stop_time_update}
use catenary_backend.Realtime.Closest.Laws.{Choice, find_closest_stop_time_update-Choice}

-- The payload of the feed is a number or nothing.
abbrev plain : Payload
plain = record {
  TripDescriptor = ℕ;
  VehicleDescriptor = Unit;
  TripProperties = Unit;
  StopTimeProperties = Unit;
  VehiclePosition = Unit;
  Alert = Unit;
  Shape = Unit;
  Stop = Unit;
  TripModifications = Unit;
}

abbrev event_at : ℕ → StopTimeEvent
event_at t = record {
  delay = some (negsuc 59);
  time = some (pos t);
  uncertainty = none;
  scheduled_time = some (pos (t + 60));
}

abbrev feed : FeedMessage plain
feed = record {
  header = record {
    gtfs_realtime_version = "2.0";
    incrementality = none;
    timestamp = some 1700000000;
    feed_version = none;
  };
  entity =
      record {
        id = "1";
        is_deleted = none;
        trip_update = some (record {
          trip = 7;
          vehicle = none;
          stop_time_update =
              record {
                stop_sequence = some 4;
                stop_id = some "a";
                arrival = some (event_at 1700000100);
                departure = some (event_at 1700000130);
                departure_occupancy_status = none;
                schedule_relationship = none;
                stop_time_properties = none;
              }
              ∷ [];
          timestamp = none;
          delay = none;
          trip_properties = none;
        });
        vehicle = none;
        alert = none;
        shape = none;
        stop = none;
        trip_modifications = none;
      }
      ∷ [];
}

feed-Fits : Fits plain feed
unfolding Fits IsEpoch IsNear FitsEvent FitsUpdate FitsTrip FitsEntity reference_epoch_of
feed-Fits = (
  omega arith,
  (
    (
      (
        omega arith,
        ((omega arith, omega arith), (omega arith, omega arith)),
        ((omega arith, omega arith), (omega arith, omega arith)),
      ),
      tt,
    ),
    tt,
  ),
)

to_feed_message-from_feed_message_example :
    to_feed_message plain (from_feed_message plain feed) ≡ feed
to_feed_message-from_feed_message_example = to_feed_message-from_feed_message plain feed feed-Fits

abbrev call_at : ℕ → CompactStopTimeUpdate plain
call_at t = record {
  stop_sequence = none;
  stop_id = none;
  arrival =
      some
        (record { delay = none; time = some (pos t); uncertainty = none; scheduled_time = none });
  departure = none;
  departure_occupancy_status = none;
  schedule_relationship = none;
  stop_time_properties = none;
}

find_closest_stop_time_update-Choice_example :
    Choice 1700000000 1700000200 (call_at 300 ∷ call_at 100 ∷ call_at 250 ∷ []) (
      find_closest_stop_time_update plain 1700000000
        (call_at 300 ∷ call_at 100 ∷ call_at 250 ∷ [])
        1700000200)
find_closest_stop_time_update-Choice_example =
    find_closest_stop_time_update-Choice 1700000000 1700000200
      (call_at 300 ∷ call_at 100 ∷ call_at 250 ∷ [])
