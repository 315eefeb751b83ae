-- ===== src/Examples/Tests/Store.antt =====
-- The tests of store/memory.rs: what they send.
mod Hypothesis
mod Tombstones
mod Views
use tee.Base.{String, List, [], ◌∷◌, pos, none, some, true}
use tee.Proto
use tee.Proto.{node_type_as_i32, edge_type_as_i32}
use tee.Store.State.{InnerState, Outcome}
use tee.Store.Hypothesis.{merge_hypothesis}
use tee.Store.Tombstones.{merge_node_tombstones, merge_edge_tombstones}
use tee.Store.Incidents.{create_incident}
use tee.Examples.Model.{lattices}
use tee.Examples.Data.{make_node, make_edge}
use tee.Examples.Tests.Run.{Test, writes}

abbrev pub make_delta : List Proto.Node → List Proto.Edge → Proto.HypothesisDelta
make_delta nodes edges = record { nodes = nodes; edges = edges }

-- `store.merge_hypothesis(..).await.unwrap()`, and so on. The clock shows some time.
abbrev pub merge : Proto.HypothesisDelta → Test Proto.HypothesisMergeResult
merge delta = writes (merge_hypothesis delta)

abbrev pub create : String → Test Proto.CreateIncidentResult
create id = writes (create_incident (some (1700000000, 0)) id)

abbrev pub bury_nodes : Proto.NodeTombstoneRequest → Test Proto.TombstoneMergeResult
bury_nodes request = writes (merge_node_tombstones request)

abbrev pub bury_edges : Proto.EdgeTombstoneRequest → Test Proto.TombstoneMergeResult
bury_edges request = writes (merge_edge_tombstones request)

abbrev pub service : String → String → Proto.Node
service id label = make_node id (node_type_as_i32 Proto.service) label

abbrev pub depends : String → String → Proto.Edge
depends source target = make_edge source target (edge_type_as_i32 Proto.depends_on)

abbrev pub elim_provenance : Proto.Provenance
elim_provenance = record { source = "agent"; trigger = "elim"; timestamp = none }

-- A request to bury one node, and one edge, in `inc-1`.
abbrev pub bury_node : String → Proto.NodeTombstoneRequest
bury_node id = record {
  incident_id = "inc-1";
  node_ids = id ∷ [];
  provenance = some elim_provenance;
}

abbrev pub bury_edge : String → String → Proto.EdgeTombstoneRequest
bury_edge source target = record {
  incident_id = "inc-1";
  entries =
      record { source = source; target = target; type = edge_type_as_i32 Proto.depends_on } ∷ [];
  provenance = some elim_provenance;
}
