-- ===== src/Transit.antt =====
-- The transit layer of the routing graph: the data types of src/routing_common/transit_graph.rs.
-- Coordinates (f64), the boundary polygon and the indices that only other services read are left out.
use catenary_backend.Common.{ℕ, String, List, Option, Bool}

-- Interleaved travel and dwell times: index 2 * i is the travel from stop i - 1 to stop i, index
-- 2 * i + 1 the dwell at stop i.
pub record TimeDeltaSequence : Type 0 where
  pub deltas : List ℕ

pub record TransitStop : Type 0 where
  pub id : ℕ
  pub chateau_idx : ℕ
  pub station_id : String
  pub gtfs_stop_ids : List String
  pub is_hub : Bool
  pub is_border : Bool
  pub is_external_gateway : Bool
  pub is_long_distance : Bool

pub record DirectionPattern : Type 0 where
  pub stop_indices : List ℕ

pub record CompressedTrip : Type 0 where
  pub gtfs_trip_id : String
  pub service_mask : ℕ
  pub start_time : ℕ
  pub time_delta_idx : ℕ
  pub service_idx : ℕ
  pub bikes_allowed : ℕ
  pub wheelchair_accessible : ℕ

pub record TripPattern : Type 0 where
  pub chateau_idx : ℕ
  pub route_id : String
  pub direction_pattern_idx : ℕ
  pub trips : List CompressedTrip
  pub timezone_idx : ℕ
  pub route_type : ℕ
  pub is_border : Bool

pub record StaticTransfer : Type 0 where
  pub from_stop_idx : ℕ
  pub to_stop_idx : ℕ
  pub duration_seconds : ℕ
  pub distance_meters : ℕ
  pub wheelchair_accessible : Bool

pub record TransitPartition : Type 0 where
  pub partition_id : ℕ
  pub stops : List TransitStop
  pub trip_patterns : List TripPattern
  pub time_deltas : List TimeDeltaSequence
  pub direction_patterns : List DirectionPattern
  pub internal_transfers : List StaticTransfer
  pub service_ids : List String

pub record TransitEdge : Type 0 where
  pub trip_pattern_idx : ℕ
  pub start_stop_idx : ℕ
  pub end_stop_idx : ℕ
  pub min_duration : ℕ

pub record WalkEdge : Type 0 where
  pub duration_seconds : ℕ

pub data EdgeType : Type 0 where
  transit : TransitEdge → EdgeType
  long_distance_transit : TransitEdge → EdgeType
  walk : WalkEdge → EdgeType

pub record DagEdge : Type 0 where
  pub from_node_idx : ℕ
  pub to_node_idx : ℕ
  pub edge_type : Option EdgeType
