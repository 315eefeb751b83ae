-- ===== src/Store/Views.antt =====
-- `get_live_view` and `get_main_graph`.
pub mod Live
pub mod Isolation
use tee.Base.{String, map, Bool, not, ◌&&◌, Result, ok, ◌>>=◌, filter, string_ord, string_key}
use tee.Collections.BTreeSet.{contains}
use tee.Collections.BTreeMap.{get}
use tee.Lattices.{Lattices}
use tee.Proto
use tee.Domain.Node.{NodeLattice}
use tee.Domain.Edge.{EdgeKey, EdgeLattice, edge_ord}
use tee.Convert.{domain_node_to_proto, domain_edge_to_proto}
use tee.Store.State.{StoreError, IncidentState, InnerState}
use tee.Store.Incidents.{or_not_found}

-- The filters of the two iterators.
unfoldable pub node_is_live : IncidentState → String → Bool
node_is_live incident id = not (contains incident.node_tombstones id)

unfoldable pub edge_is_live : IncidentState → EdgeKey → Bool
edge_is_live incident key =
    not (contains incident.edge_tombstones key)
    && not (contains incident.node_tombstones key.source)
    && not (contains incident.node_tombstones key.target)

module _ ⦃L : Lattices⦄ where
  abbrev pub node_message : String × NodeLattice → Proto.Node
  node_message e = domain_node_to_proto e.0 e.1

  abbrev pub edge_message : EdgeKey × EdgeLattice → Proto.Edge
  edge_message e = domain_edge_to_proto e.0 e.1

  unfoldable pub get_live_view : String → InnerState → Result Proto.CausalGraph StoreError
  get_live_view incident_id state = do
    incident ← or_not_found incident_id (get state.incidents incident_id)
    ok (record {
      nodes = map node_message (filter (λ e. node_is_live incident e.0) state.nodes);
      edges = map edge_message (filter (λ e. edge_is_live incident e.0) state.edges);
    })

  unfoldable pub get_main_graph : InnerState → Result Proto.CausalGraph StoreError
  get_main_graph state =
      ok (record { nodes = map node_message state.nodes; edges = map edge_message state.edges })
