-- ===== src/Validation.antt =====
-- schema/validation.rs: what the service refuses before it calls the store. A function returns at
-- the first failed test, so the order of the tests decides the error.
pub mod Spec
pub mod Requests
use Prim.Native.String.{◌++◌}
use tee.Base.{
  String, List, [], ◌∷◌, Option, none, some, Bool, Result, ok, err, ◌>>=◌, ◌>>◌, refuse, is_nil,
  is_empty, string_eq,
}
use tee.Base.Int.{int_eq}
use tee.Proto
use tee.Proto.{node_type_as_i32, edge_type_as_i32}

pub data ValidationError : Type 0 where
  empty_node_id unspecified_node_type empty_node_label empty_edge_source : ValidationError
  empty_edge_target : ValidationError
  self_loop : String → ValidationError
  unspecified_edge_type missing_provenance empty_provenance_source : ValidationError
  empty_provenance_trigger empty_incident_id empty_tombstone_set : ValidationError

-- `to_string`. The self loop prints its node by `{:?}`, which is the argument `debug`.
unfoldable pub show_validation_error : (String → String) → ValidationError → String
show_validation_error debug empty_node_id = "node id must not be empty"
show_validation_error debug unspecified_node_type = "node type must be specified (got UNSPECIFIED)"
show_validation_error debug empty_node_label = "node label must not be empty"
show_validation_error debug empty_edge_source = "edge source must not be empty"
show_validation_error debug empty_edge_target = "edge target must not be empty"
show_validation_error debug (self_loop s) =
    "self-loops are not permitted (source == target: " ++ debug s ++ ")"
show_validation_error debug unspecified_edge_type = "edge type must be specified (got UNSPECIFIED)"
show_validation_error debug missing_provenance = "at least one provenance entry is required"
show_validation_error debug empty_provenance_source = "provenance source must not be empty"
show_validation_error debug empty_provenance_trigger = "provenance trigger must not be empty"
show_validation_error debug empty_incident_id = "incident id must not be empty"
show_validation_error debug empty_tombstone_set = "at least one tombstone entry is required"

abbrev pub Verdict : Type 0
Verdict = Result (Unit {0}) ValidationError

-- `for x in xs { check(x)?; }`.
unfoldable pub each {ℓ} : {A : Type ℓ} → (A → Verdict) → List A → Verdict
each check [] = ok tt
each check (x ∷ xs) = check x >> each check xs

unfoldable pub validate_provenance : Proto.Provenance → Verdict
validate_provenance prov = do
  refuse (is_empty prov.source) empty_provenance_source
  refuse (is_empty prov.trigger) empty_provenance_trigger
  ok tt

unfoldable pub validate_node : Proto.Node → Verdict
validate_node node = do
  refuse (is_empty node.id) empty_node_id
  refuse (int_eq node.type (node_type_as_i32 Proto.NodeType.unspecified)) unspecified_node_type
  refuse (is_empty node.label) empty_node_label
  refuse (is_nil node.provenance) missing_provenance
  each validate_provenance node.provenance

unfoldable pub validate_edge : Proto.Edge → Verdict
validate_edge edge = do
  refuse (is_empty edge.source) empty_edge_source
  refuse (is_empty edge.target) empty_edge_target
  refuse (string_eq.beq edge.source edge.target) (self_loop edge.source)
  refuse (int_eq edge.type (edge_type_as_i32 Proto.EdgeType.unspecified)) unspecified_edge_type
  refuse (is_nil edge.provenance) missing_provenance
  each validate_provenance edge.provenance

unfoldable pub validate_hypothesis_delta : Proto.HypothesisDelta → Verdict
validate_hypothesis_delta delta = do each validate_node delta.nodes; each validate_edge delta.edges

abbrev pub validate_optional : Option Proto.Provenance → Verdict
validate_optional none = err missing_provenance
validate_optional (some prov) = validate_provenance prov

unfoldable pub validate_node_tombstone_request : Proto.NodeTombstoneRequest → Verdict
validate_node_tombstone_request req = do
  refuse (is_empty req.incident_id) empty_incident_id
  refuse (is_nil req.node_ids) empty_tombstone_set
  validate_optional req.provenance

-- The tests of one entry in the loop over `req.entries`.
unfoldable pub validate_entry : Proto.EdgeTombstoneEntry → Verdict
validate_entry entry = do
  refuse (is_empty entry.source) empty_edge_source
  refuse (is_empty entry.target) empty_edge_target
  refuse (int_eq entry.type (edge_type_as_i32 Proto.EdgeType.unspecified)) unspecified_edge_type

unfoldable pub validate_edge_tombstone_request : Proto.EdgeTombstoneRequest → Verdict
validate_edge_tombstone_request req = do
  refuse (is_empty req.incident_id) empty_incident_id
  refuse (is_nil req.entries) empty_tombstone_set
  validate_optional req.provenance
  each validate_entry req.entries

unfoldable pub validate_incident_id : String → Verdict
validate_incident_id incident_id = refuse (is_empty incident_id) empty_incident_id
