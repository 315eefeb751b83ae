-- ===== src/Examples/Tests/Store/Views.antt =====
-- The tests of `get_live_view` and `get_main_graph`.
use tee.Base.{filter, ◌≡◌, refl, ◌==◌, true, [], ◌∷◌, length, string_eq, string_key, string_ord}
use tee.Collections.BTreeSet
use tee.Collections.BTreeMap.{get, insert}
use tee.Domain.Types.{edge_type_key}
use tee.Domain.Edge
use tee.Domain.Edge.{edge_ord, edge_key}
use tee.Convert
use tee.Store.State.{new}
use tee.Store.Hypothesis
use tee.Store.Incidents
use tee.Store.Tombstones
use tee.Store.Views
use tee.Store.Views.{get_live_view, get_main_graph}
use tee.Examples.Model.{lattices}
use tee.Examples.Tests.Run.{Test, ◌>>=◌, ◌>>◌, assert, at, reads, passes, all_hold}
use tee.Examples.Tests.Store.{
  make_delta, merge, create, bury_nodes, bury_edges, service, depends, bury_node, bury_edge,
}

abbrev live_view_filters_tombstoned_nodes : Test (Unit {0})
live_view_filters_tombstoned_nodes = do
  create "inc-1"
  merge (make_delta (service "n1" "svc1" ∷ service "n2" "svc2" ∷ []) [])
  bury_nodes (bury_node "n1")
  view ← reads (get_live_view "inc-1")
  assert (length view.nodes == 1)
  node ← at view.nodes 0
  assert (string_eq.beq node.id "n2")

abbrev live_view_filters_edges_of_tombstoned_nodes : Test (Unit {0})
live_view_filters_edges_of_tombstoned_nodes = do
  create "inc-1"
  merge (
      make_delta (service "n1" "svc1" ∷ service "n2" "svc2" ∷ service "n3" "svc3" ∷ [])
        (depends "n1" "n2" ∷ depends "n2" "n3" ∷ []))
  bury_nodes (bury_node "n1")
  view ← reads (get_live_view "inc-1")
  assert (length view.nodes == 2)
  assert (length view.edges == 1)
  edge ← at view.edges 0
  assert (string_eq.beq edge.source "n2")
  assert (string_eq.beq edge.target "n3")

abbrev live_view_filters_tombstoned_edges : Test (Unit {0})
live_view_filters_tombstoned_edges = do
  create "inc-1"
  merge (make_delta (service "n1" "svc1" ∷ service "n2" "svc2" ∷ []) (depends "n1" "n2" ∷ []))
  bury_edges (bury_edge "n1" "n2")
  view ← reads (get_live_view "inc-1")
  assert (length view.nodes == 2)
  assert (length view.edges == 0)

abbrev tombstones_isolated_between_incidents : Test (Unit {0})
tombstones_isolated_between_incidents = do
  create "inc-1"
  create "inc-2"
  merge (make_delta (service "n1" "svc1" ∷ service "n2" "svc2" ∷ []) [])
  bury_nodes (bury_node "n1")
  view1 ← reads (get_live_view "inc-1")
  view2 ← reads (get_live_view "inc-2")
  assert (length view1.nodes == 1)
  assert (length view2.nodes == 2)

abbrev main_graph_includes_all : Test (Unit {0})
main_graph_includes_all = do
  merge (make_delta (service "n1" "svc1" ∷ service "n2" "svc2" ∷ []) (depends "n1" "n2" ∷ []))
  graph ← reads get_main_graph
  assert (length graph.nodes == 2)
  assert (length graph.edges == 1)

tests_pass :
    all_hold (
      passes live_view_filters_tombstoned_nodes
      ∷ passes live_view_filters_edges_of_tombstoned_nodes
      ∷ passes live_view_filters_tombstoned_edges
      ∷ passes tombstones_isolated_between_incidents
      ∷ passes main_graph_includes_all
      ∷ [])
    ≡ true
unfolding new filter get insert BTreeSet.get BTreeSet.insert Hypothesis.merge_hypothesis
    Hypothesis.merge_nodes Hypothesis.merge_edges Hypothesis.merge_node Hypothesis.merge_edge
    Hypothesis.edge_id Incidents.create_incident Tombstones.merge_node_tombstones
    Tombstones.merge_edge_tombstones Tombstones.tombstone_nodes Tombstones.tombstone_edges
    Tombstones.tombstone_node Tombstones.tombstone_edge Views.get_live_view Views.get_main_graph
    Views.node_is_live Views.edge_is_live Edge.new_key Edge.cmp edge_key edge_ord edge_type_key
    Convert.node_type_try_from Convert.edge_type_try_from Convert.proto_node_to_domain
    Convert.proto_edge_to_domain string_key string_ord Convert.domain_node_to_proto
    Convert.domain_edge_to_proto
tests_pass = refl
