-- ===== src/Examples/Tests/Validation.antt =====
-- The tests of schema/validation.rs.
use tee.Base.{is_ok, ◌≡◌, refl, Bool, true, false, none, some, [], ◌∷◌, ok, err}
use tee.Proto
use tee.Proto.{node_type_as_i32, edge_type_as_i32}
use tee.Validation
use tee.Validation.{
  validate_node, validate_edge, validate_node_tombstone_request, validate_edge_tombstone_request,
}
use tee.Examples.Tests.Run.{all_hold}

abbrev valid_provenance : Proto.Provenance
valid_provenance = record { source = "agent-1"; timestamp = none; trigger = "alert-fired" }

abbrev valid_node : Proto.Node
valid_node = record {
  id = "node-1";
  type = node_type_as_i32 Proto.service;
  label = "api-gateway";
  hypothetical = true;
  provenance = valid_provenance ∷ [];
}

abbrev valid_edge : Proto.Edge
valid_edge = record {
  source = "node-1";
  target = "node-2";
  type = edge_type_as_i32 Proto.depends_on;
  provenance = valid_provenance ∷ [];
}

abbrev valid_node_passes : Bool
valid_node_passes = is_ok (validate_node valid_node)

abbrev empty_node_id_rejected : Bool
empty_node_id_rejected = elim (validate_node (record valid_node { id = "" })) [
  | err (Validation.empty_node_id) ↦ true
  | err _ ↦ false
  | ok _ ↦ false
]

abbrev unspecified_node_type_rejected : Bool
unspecified_node_type_rejected =
    elim (validate_node
      (record valid_node { type = node_type_as_i32 Proto.NodeType.unspecified })) [
        | err (Validation.unspecified_node_type) ↦ true
        | err _ ↦ false
        | ok _ ↦ false
      ]

abbrev empty_node_label_rejected : Bool
empty_node_label_rejected = elim (validate_node (record valid_node { label = "" })) [
  | err (Validation.empty_node_label) ↦ true
  | err _ ↦ false
  | ok _ ↦ false
]

abbrev node_missing_provenance_rejected : Bool
node_missing_provenance_rejected = elim (validate_node (record valid_node { provenance = [] })) [
  | err (Validation.missing_provenance) ↦ true
  | err _ ↦ false
  | ok _ ↦ false
]

abbrev node_empty_provenance_source_rejected : Bool
node_empty_provenance_source_rejected =
    elim (validate_node
      (record valid_node { provenance = record valid_provenance { source = "" } ∷ [] })) [
        | err (Validation.empty_provenance_source) ↦ true
        | err _ ↦ false
        | ok _ ↦ false
      ]

abbrev valid_edge_passes : Bool
valid_edge_passes = is_ok (validate_edge valid_edge)

abbrev empty_edge_source_rejected : Bool
empty_edge_source_rejected = elim (validate_edge (record valid_edge { source = "" })) [
  | err (Validation.empty_edge_source) ↦ true
  | err _ ↦ false
  | ok _ ↦ false
]

abbrev self_loop_rejected : Bool
self_loop_rejected = elim (validate_edge (record valid_edge { target = valid_edge.source })) [
  | err (Validation.self_loop _) ↦ true
  | err _ ↦ false
  | ok _ ↦ false
]

abbrev unspecified_edge_type_rejected : Bool
unspecified_edge_type_rejected =
    elim (validate_edge
      (record valid_edge { type = edge_type_as_i32 Proto.EdgeType.unspecified })) [
        | err (Validation.unspecified_edge_type) ↦ true
        | err _ ↦ false
        | ok _ ↦ false
      ]

abbrev valid_tombstones : Proto.NodeTombstoneRequest
valid_tombstones = record {
  incident_id = "inc-1";
  node_ids = "n1" ∷ [];
  provenance = some valid_provenance;
}

abbrev valid_node_tombstone_passes : Bool
valid_node_tombstone_passes = is_ok (validate_node_tombstone_request valid_tombstones)

abbrev tombstone_empty_incident_id_rejected : Bool
tombstone_empty_incident_id_rejected =
    elim (validate_node_tombstone_request (record valid_tombstones { incident_id = "" })) [
      | err (Validation.empty_incident_id) ↦ true
      | err _ ↦ false
      | ok _ ↦ false
    ]

abbrev tombstone_empty_ids_rejected : Bool
tombstone_empty_ids_rejected =
    elim (validate_node_tombstone_request (record valid_tombstones { node_ids = [] })) [
      | err (Validation.empty_tombstone_set) ↦ true
      | err _ ↦ false
      | ok _ ↦ false
    ]

abbrev tombstone_missing_provenance_rejected : Bool
tombstone_missing_provenance_rejected =
    elim (validate_node_tombstone_request (record valid_tombstones { provenance = none })) [
      | err (Validation.missing_provenance) ↦ true
      | err _ ↦ false
      | ok _ ↦ false
    ]

tests_pass :
    all_hold (
      valid_node_passes ∷ empty_node_id_rejected ∷ unspecified_node_type_rejected
      ∷ empty_node_label_rejected ∷ node_missing_provenance_rejected
      ∷ node_empty_provenance_source_rejected ∷ valid_edge_passes ∷ empty_edge_source_rejected
      ∷ self_loop_rejected ∷ unspecified_edge_type_rejected ∷ valid_node_tombstone_passes
      ∷ tombstone_empty_incident_id_rejected ∷ tombstone_empty_ids_rejected
      ∷ tombstone_missing_provenance_rejected ∷ [])
    ≡ true
unfolding validate_node validate_edge Validation.validate_provenance Validation.each
    validate_node_tombstone_request
tests_pass = refl
