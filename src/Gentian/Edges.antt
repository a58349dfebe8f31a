-- ===== src/Gentian/Edges.antt =====
-- The deduplication of the result edges, in `compute_profile_query` of src/gentian/trip_based.rs.
-- `dedup_map` is an association list in the order of insertion; the order in which the real map is
-- drained is not fixed, and no statement depends on it.
pub mod Laws
pub mod Distinct
use catenary_backend.Common.{
  ℕ, Bool, ◌&&◌, Option, none, some, List, [], ◌∷◌, map, ltb, ◌==◌, if◌then◌else◌,
}
use catenary_backend.Transit.{
  DagEdge, EdgeType, TransitEdge, WalkEdge, transit, long_distance_transit, walk,
}

-- Key: (from, to, type, p_idx, s_idx, e_idx)
pub record EdgeKey : Type 0 where
  pub from_node : ℕ
  pub to_node : ℕ
  pub kind : ℕ
  pub p_idx : ℕ
  pub s_idx : ℕ
  pub e_idx : ℕ

unfoldable pub same_key : EdgeKey → EdgeKey → Bool
same_key a b =
    a.from_node == b.from_node
    && (a.to_node == b.to_node
        && (a.kind == b.kind && (a.p_idx == b.p_idx && (a.s_idx == b.s_idx && a.e_idx == b.e_idx))))

unfoldable pub key_of : ℕ → ℕ → EdgeType → EdgeKey
key_of from to (transit t) = record {
  from_node = from;
  to_node = to;
  kind = 1;
  p_idx = t.trip_pattern_idx;
  s_idx = t.start_stop_idx;
  e_idx = t.end_stop_idx;
}
key_of from to (long_distance_transit t) = record {
  from_node = from;
  to_node = to;
  kind = 2;
  p_idx = t.trip_pattern_idx;
  s_idx = t.start_stop_idx;
  e_idx = t.end_stop_idx;
}
key_of from to (walk w) = record {
  from_node = from;
  to_node = to;
  kind = 0;
  p_idx = 0;
  s_idx = 0;
  e_idx = 0;
}

-- if t2.min_duration < t1.min_duration { t1.min_duration = t2.min_duration }
unfoldable pub shorten : EdgeType → EdgeType → EdgeType
shorten (transit t₁) (transit t₂) = transit (
    if ltb t₂.min_duration t₁.min_duration
    then record t₁ { min_duration = t₂.min_duration }
    else t₁)
shorten (long_distance_transit t₁) (long_distance_transit t₂) = long_distance_transit (
    if ltb t₂.min_duration t₁.min_duration
    then record t₁ { min_duration = t₂.min_duration }
    else t₁)
shorten (walk w₁) (walk w₂) = walk (
    if ltb w₂.duration_seconds w₁.duration_seconds
    then record w₁ { duration_seconds = w₂.duration_seconds }
    else w₁)
shorten existing edge = existing

-- An entry of the map; its edge type is present, since edges without one are passed over.
pub record Entry : Type 0 where
  pub key : EdgeKey
  pub from_node_idx : ℕ
  pub to_node_idx : ℕ
  pub edge_type : EdgeType

-- scratch.dedup_map.entry(key): an occupied entry is shortened, a vacant one filled.
unfoldable pub insert_edge : Entry → List Entry → List Entry
insert_edge edge [] = edge ∷ []
insert_edge edge (existing ∷ rest) =
    let inserted = insert_edge edge rest in
    if same_key existing.key edge.key
    then record existing { edge_type = shorten existing.edge_type edge.edge_type } ∷ rest
    else existing ∷ inserted

-- The body of the loop over the result edges.
unfoldable pub add_edge : DagEdge → Option EdgeType → List Entry → List Entry
add_edge edge none entries = entries
add_edge edge (some edge_type) entries =
    insert_edge
      (record {
        key = key_of edge.from_node_idx edge.to_node_idx edge_type;
        from_node_idx = edge.from_node_idx;
        to_node_idx = edge.to_node_idx;
        edge_type = edge_type;
      })
      entries

unfoldable pub add_edges : List DagEdge → List Entry → List Entry
add_edges [] entries = entries
add_edges (edge ∷ edges) entries = add_edges edges (add_edge edge edge.edge_type entries)

abbrev pub entry_edge : Entry → DagEdge
entry_edge e = record {
  from_node_idx = e.from_node_idx;
  to_node_idx = e.to_node_idx;
  edge_type = some e.edge_type;
}

-- The result edges after the deduplication.
unfoldable pub dedup_edges : List DagEdge → List DagEdge
dedup_edges edges = map entry_edge (add_edges edges [])
