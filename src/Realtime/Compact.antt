-- ===== src/Realtime/Compact.antt =====
-- The compact form of a realtime feed: src/compact_formats.rs. Times are kept as 24-bit offsets
-- from a reference epoch. The messages of the generated protobuf code that are only carried along
-- (alerts, vehicles, shapes and the like) are the parameter types of `Payload`.
pub mod Laws
use catenary_backend.Common.{
  ℕ, zero, suc, ◌+◌, ◌*◌, ◌/◌, ◌%◌, Bool, Option, none, some, List, map, String, unwrap_or,
  map_option,
}
use catenary_backend.Common.Words.{u16_mod}
use catenary_backend.Common.Int.{ℤ, pos, ◌+ℤ◌, ◌-ℤ◌, wrap_signed}

-- Generated message types that the conversion passes through unchanged.
pub record Payload : Type 1 where
  pub TripDescriptor : Type 0
  pub VehicleDescriptor : Type 0
  pub TripProperties : Type 0
  pub StopTimeProperties : Type 0
  pub VehiclePosition : Type 0
  pub Alert : Type 0
  pub Shape : Type 0
  pub Stop : Type 0
  pub TripModifications : Type 0

pub record FeedHeader : Type 0 where
  pub gtfs_realtime_version : String
  pub incrementality : Option ℤ
  pub timestamp : Option ℕ
  pub feed_version : Option String

pub record StopTimeEvent : Type 0 where
  pub delay : Option ℤ
  pub time : Option ℤ
  pub uncertainty : Option ℤ
  pub scheduled_time : Option ℤ

-- A row of a schedule with times relative to the start of the trip.
pub record CompactItineraryPatternRow : Type 0 where
  pub stop_sequence : ℤ
  pub arrival_time_since_start : Option ℤ
  pub departure_time_since_start : Option ℤ
  pub interpolated_time_since_start : Option ℤ
  pub stop_id : String
  pub gtfs_stop_sequence : ℕ
  pub timepoint : Option Bool
  pub stop_headsign_idx : Option ℤ

-- `I24` times are the integers from -2 ^ 23 up to 2 ^ 23 - 1.
pub record CompactStopTimeEvent : Type 0 where
  pub delay : Option ℤ
  pub time : Option ℤ
  pub uncertainty : Option ℤ
  pub scheduled_time : Option ℤ

-- x as i32
abbrev pub as_i32 : ℤ → ℤ
as_i32 = wrap_signed 0x8000_0000

-- x as i64, for an x : u64
abbrev pub as_i64 : ℕ → ℤ
as_i64 n = wrap_signed 0x8000_0000_0000_0000 (pos n)

-- the result of `+` or `-` on i64 in a release build
abbrev pub wrap_i64 : ℤ → ℤ
wrap_i64 = wrap_signed 0x8000_0000_0000_0000

-- I24::wrapping_from_i32
abbrev pub wrapping_from_i32 : ℤ → ℤ
wrapping_from_i32 = wrap_signed 0x80_0000

unfoldable pub compact_time : ℕ → ℤ → ℤ
compact_time ref_epoch t = wrapping_from_i32 (as_i32 (wrap_i64 (t -ℤ as_i64 ref_epoch)))

unfoldable pub full_time : ℕ → ℤ → ℤ
full_time ref_epoch t = wrap_i64 (as_i64 ref_epoch +ℤ t)

unfoldable pub from_stop_time_event : StopTimeEvent → ℕ → CompactStopTimeEvent
from_stop_time_event ste ref_epoch = record {
  delay = ste.delay;
  time = map_option (compact_time ref_epoch) ste.time;
  uncertainty = ste.uncertainty;
  scheduled_time = map_option (compact_time ref_epoch) ste.scheduled_time;
}

unfoldable pub to_stop_time_event : CompactStopTimeEvent → ℕ → StopTimeEvent
to_stop_time_event e ref_epoch = record {
  delay = e.delay;
  time = map_option (full_time ref_epoch) e.time;
  uncertainty = e.uncertainty;
  scheduled_time = map_option (full_time ref_epoch) e.scheduled_time;
}

module _ (p : Payload) where
  open p use {
    TripDescriptor, VehicleDescriptor, TripProperties, StopTimeProperties, VehiclePosition, Alert,
    Shape, Stop, TripModifications,
  }

  pub record StopTimeUpdate : Type 0 where
    pub stop_sequence : Option ℕ  -- u32
    pub stop_id : Option String
    pub arrival : Option StopTimeEvent
    pub departure : Option StopTimeEvent
    pub departure_occupancy_status : Option ℤ
    pub schedule_relationship : Option ℤ
    pub stop_time_properties : Option StopTimeProperties

  pub record CompactStopTimeUpdate : Type 0 where
    pub stop_sequence : Option ℕ  -- u16
    pub stop_id : Option String
    pub arrival : Option CompactStopTimeEvent
    pub departure : Option CompactStopTimeEvent
    pub departure_occupancy_status : Option ℤ
    pub schedule_relationship : Option ℤ
    pub stop_time_properties : Option StopTimeProperties

  pub record TripUpdate : Type 0 where
    pub trip : TripDescriptor
    pub vehicle : Option VehicleDescriptor
    pub stop_time_update : List StopTimeUpdate
    pub timestamp : Option ℕ
    pub delay : Option ℤ
    pub trip_properties : Option TripProperties

  pub record CompactTripUpdate : Type 0 where
    pub trip : TripDescriptor
    pub vehicle : Option VehicleDescriptor
    pub stop_time_update : List CompactStopTimeUpdate
    pub timestamp : Option ℕ
    pub delay : Option ℤ
    pub trip_properties : Option TripProperties

  pub record FeedEntity : Type 0 where
    pub id : String
    pub is_deleted : Option Bool
    pub trip_update : Option TripUpdate
    pub vehicle : Option VehiclePosition
    pub alert : Option Alert
    pub shape : Option Shape
    pub stop : Option Stop
    pub trip_modifications : Option TripModifications

  pub record CompactFeedEntity : Type 0 where
    pub id : String
    pub is_deleted : Option Bool
    pub trip_update : Option CompactTripUpdate
    pub vehicle : Option VehiclePosition
    pub alert : Option Alert
    pub shape : Option Shape
    pub stop : Option Stop
    pub trip_modifications : Option TripModifications

  pub record FeedMessage : Type 0 where
    pub header : FeedHeader
    pub entity : List FeedEntity

  -- `CompactFeedHeader` has the fields of `FeedHeader`, and both conversions copy each of them.
  pub record CompactFeedMessage : Type 0 where
    pub header : FeedHeader
    pub entity : List CompactFeedEntity
    pub reference_epoch : ℕ

  unfoldable pub from_stop_time_update : ℕ → StopTimeUpdate → CompactStopTimeUpdate
  from_stop_time_update ref_epoch stu = record {
    stop_sequence = map_option (λ s. s % u16_mod) stu.stop_sequence;
    stop_id = stu.stop_id;
    arrival = map_option (λ a. from_stop_time_event a ref_epoch) stu.arrival;
    departure = map_option (λ d. from_stop_time_event d ref_epoch) stu.departure;
    departure_occupancy_status = stu.departure_occupancy_status;
    schedule_relationship = stu.schedule_relationship;
    stop_time_properties = stu.stop_time_properties;
  }

  unfoldable pub to_stop_time_update : ℕ → CompactStopTimeUpdate → StopTimeUpdate
  to_stop_time_update ref_epoch stu = record {
    stop_sequence = stu.stop_sequence;
    stop_id = stu.stop_id;
    arrival = map_option (λ a. to_stop_time_event a ref_epoch) stu.arrival;
    departure = map_option (λ d. to_stop_time_event d ref_epoch) stu.departure;
    departure_occupancy_status = stu.departure_occupancy_status;
    schedule_relationship = stu.schedule_relationship;
    stop_time_properties = stu.stop_time_properties;
  }

  unfoldable pub from_trip_update : ℕ → TripUpdate → CompactTripUpdate
  from_trip_update ref_epoch tu = record {
    trip = tu.trip;
    vehicle = tu.vehicle;
    stop_time_update = map (from_stop_time_update ref_epoch) tu.stop_time_update;
    timestamp = tu.timestamp;
    delay = tu.delay;
    trip_properties = tu.trip_properties;
  }

  unfoldable pub to_trip_update : ℕ → CompactTripUpdate → TripUpdate
  to_trip_update ref_epoch tu = record {
    trip = tu.trip;
    vehicle = tu.vehicle;
    stop_time_update = map (to_stop_time_update ref_epoch) tu.stop_time_update;
    timestamp = tu.timestamp;
    delay = tu.delay;
    trip_properties = tu.trip_properties;
  }

  unfoldable pub from_feed_entity : ℕ → FeedEntity → CompactFeedEntity
  from_feed_entity ref_epoch entity = record {
    id = entity.id;
    is_deleted = entity.is_deleted;
    trip_update = map_option (from_trip_update ref_epoch) entity.trip_update;
    vehicle = entity.vehicle;
    alert = entity.alert;
    shape = entity.shape;
    stop = entity.stop;
    trip_modifications = entity.trip_modifications;
  }

  unfoldable pub to_feed_entity : ℕ → CompactFeedEntity → FeedEntity
  to_feed_entity ref_epoch entity = record {
    id = entity.id;
    is_deleted = entity.is_deleted;
    trip_update = map_option (to_trip_update ref_epoch) entity.trip_update;
    vehicle = entity.vehicle;
    alert = entity.alert;
    shape = entity.shape;
    stop = entity.stop;
    trip_modifications = entity.trip_modifications;
  }

  -- The epoch is the header's timestamp, or 0, rounded down to a multiple of 65536.
  unfoldable pub reference_epoch_of : FeedHeader → ℕ
  reference_epoch_of header = unwrap_or header.timestamp 0 / 65536 * 65536

  unfoldable pub from_feed_message : FeedMessage → CompactFeedMessage
  from_feed_message message =
      let reference_epoch = reference_epoch_of message.header in
      record {
        header = message.header;
        entity = map (from_feed_entity reference_epoch) message.entity;
        reference_epoch = reference_epoch;
      }

  unfoldable pub to_feed_message : CompactFeedMessage → FeedMessage
  to_feed_message m = record {
    header = m.header;
    entity = map (to_feed_entity m.reference_epoch) m.entity;
  }
