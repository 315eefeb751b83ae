-- ===== src/Proto.antt =====
-- The messages of proto/tee.proto, as the generated Rust types: an enumeration is an `i32`, a
-- message field an `Option`.
use tee.Base.{ℤ, pos, String, Bool, Option, List}

pub data NodeType : Type 0 where
  unspecified service dependency infrastructure mechanism : NodeType

pub data EdgeType : Type 0 where
  unspecified depends_on propagates_to manifests_as : EdgeType

-- `proto::NodeType::Service as i32`.
abbrev pub node_type_as_i32 : NodeType → ℤ
node_type_as_i32 NodeType.unspecified = pos 0
node_type_as_i32 service = pos 1
node_type_as_i32 dependency = pos 2
node_type_as_i32 infrastructure = pos 3
node_type_as_i32 mechanism = pos 4

abbrev pub edge_type_as_i32 : EdgeType → ℤ
edge_type_as_i32 EdgeType.unspecified = pos 0
edge_type_as_i32 depends_on = pos 1
edge_type_as_i32 propagates_to = pos 2
edge_type_as_i32 manifests_as = pos 3

pub record Timestamp : Type 0 where
  pub seconds : ℤ
  pub nanos : ℤ

pub record Provenance : Type 0 where
  pub source : String
  pub timestamp : Option Timestamp
  pub trigger : String

pub record Node : Type 0 where
  pub id : String
  pub type : ℤ
  pub label : String
  pub hypothetical : Bool
  pub provenance : List Provenance

pub record Edge : Type 0 where
  pub source : String
  pub target : String
  pub type : ℤ
  pub provenance : List Provenance

pub record CausalGraph : Type 0 where
  pub nodes : List Node
  pub edges : List Edge

pub record HypothesisDelta : Type 0 where
  pub nodes : List Node
  pub edges : List Edge

pub record CreateIncidentRequest : Type 0 where
  pub incident_id : String

pub record IncidentContextRequest : Type 0 where
  pub incident_id : String

pub record NodeTombstoneRequest : Type 0 where
  pub incident_id : String
  pub node_ids : List String
  pub provenance : Option Provenance

pub record EdgeTombstoneEntry : Type 0 where
  pub source : String
  pub target : String
  pub type : ℤ

pub record EdgeTombstoneRequest : Type 0 where
  pub incident_id : String
  pub entries : List EdgeTombstoneEntry
  pub provenance : Option Provenance

pub record LiveViewRequest : Type 0 where
  pub incident_id : String

pub record TombstoneRequest : Type 0 where
  pub incident_id : String

pub record MergeConflict : Type 0 where
  pub id : String
  pub field : String
  pub existing_value : String
  pub proposed_value : String

pub record HypothesisMergeResult : Type 0 where
  pub created_ids : List String
  pub merged_ids : List String
  pub conflicts : List MergeConflict

pub record CreateIncidentResult : Type 0 where
  pub incident_id : String
  pub created : Bool

pub record TombstoneSet : Type 0 where
  pub node_ids : List String
  pub edge_entries : List EdgeTombstoneEntry

pub record IncidentContext : Type 0 where
  pub incident_id : String
  pub created_at : Option Timestamp
  pub tombstones : Option TombstoneSet

pub record TombstoneMergeResult : Type 0 where
  pub applied_ids : List String
  pub already_tombstoned_ids : List String
  pub unmatched_ids : List String
