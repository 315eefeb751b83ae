-- ===== src/Examples/Graph.antt =====
-- The theorems about single nodes and edges, their lattices and messages.
use mathlib.Core.List.{map}
use tee.Base.{
  pos, ◌≡◌, ◌↔◌, refl, true, false, some, String, [], ◌∷◌, ok, string_eq, string_key, All,
  if◌then◌else◌,
}
use tee.Collections.BTreeSet.{from_iter, replace_all, replace}
use tee.Collections.BTreeMap.{get, insert}
use tee.Domain.Types.{
  NodeType, service, mechanism, depends_on, node_type_eq, show_node_type, edge_type_key,
}
use tee.Domain.Node
use tee.Domain.Node.{NodeLattice}
use tee.Domain.Node.Lattice.{Agree, merge_assoc, merge_comm}
use tee.Domain.Node.Facts
use tee.Domain.Edge
use tee.Domain.Edge.{EdgeKey, EdgeLattice, new_key}
use tee.Domain.Provenance.{provenance_ord}
use tee.Convert.{
  provenance_from_proto, proto_node_to_domain, domain_node_to_proto, proto_edge_to_domain,
  domain_edge_to_proto, node_type_try_from,
}
use tee.Convert.Facts.{node_round_trip, edge_round_trip}
use tee.Validation.{
  validate_hypothesis_delta, validate_node_tombstone_request, validate_edge_tombstone_request,
}
use tee.Validation.Spec
use tee.Validation.Requests
use tee.Store.State.{new}
use tee.Store.Hypothesis
use tee.Store.Hypothesis.{merge_hypothesis, no_results}
use tee.Store.Hypothesis.Single.{merge_hypothesis_single}
use tee.Store.Incidents.{create_incident}
use tee.Examples.Model.{lattices}
use tee.Examples.Data.{sample, make_node, agent, tombstones, edge_tombstones}
use tee.Examples.Store.{loaded}

-- A node as the store keeps it.
abbrev stored : NodeType → String → NodeLattice
stored type label = Node.new type label true (from_iter (map provenance_from_proto (agent ∷ [])))

stored-n1 : get loaded.nodes "n1" ≡ some (stored service "svc")
unfolding get new create_incident insert Hypothesis.merge_nodes Hypothesis.merge_edges
    Hypothesis.merge_node Hypothesis.merge_edge Hypothesis.merge_hypothesis node_type_try_from
    proto_node_to_domain string_key
stored-n1 = refl

renamed-conversion :
    proto_node_to_domain (make_node "n1" (pos 1) "api") ≡ ok ("n1", stored service "api")
unfolding proto_node_to_domain node_type_try_from
renamed-conversion = refl

merge_hypothesis_single_example :
    merge_hypothesis (record { nodes = make_node "n1" (pos 1) "api" ∷ []; edges = [] }) loaded ≡ (
      if node_type_eq.beq service service
      then if string_eq.beq "svc" "api"
        then (
          record loaded {
            nodes =
                insert loaded.nodes "n1"
                  (Node.merge (stored service "svc") (stored service "api")).0;
          },
          ok (record no_results { merged_ids = "n1" ∷ [] }),
        )
        else (
          loaded,
          ok (record no_results {
            conflicts =
                record { id = "n1"; field = "label"; existing_value = "svc"; proposed_value = "" }
                ∷ [];
          }),
        )
      else (
        loaded,
        ok (record no_results {
          conflicts =
              record {
                id = "n1";
                field = "type";
                existing_value = show_node_type service;
                proposed_value = "";
              }
              ∷ [];
        }),
      ))
unfolding Node.new
merge_hypothesis_single_example =
    merge_hypothesis_single (make_node "n1" (pos 1) "api") loaded renamed-conversion stored-n1 refl
      refl refl refl

merge_node-unchanged_example :
    ((Node.merge (stored service "svc") (stored service "svc")).1 ≡ false)
    ↔ ((Node.merge (stored service "svc") (stored service "svc")).0 ≡ stored service "svc")
merge_node-unchanged_example =
    Facts.merge_node-unchanged (stored service "svc") (stored service "svc")

abbrev link : EdgeLattice
link = Edge.new (from_iter (map provenance_from_proto (agent ∷ [])))

node_round_trip_example :
    proto_node_to_domain (domain_node_to_proto "n1" (stored service "svc"))
    ≡ ok ("n1", stored service "svc")
unfolding Node.new from_iter replace_all replace
node_round_trip_example = node_round_trip "n1" (stored service "svc") refl refl (tt, tt)

edge_round_trip_example :
    proto_edge_to_domain (domain_edge_to_proto (new_key "n1" "n2" depends_on) link)
    ≡ ok (new_key "n1" "n2" depends_on, link)
unfolding Edge.new from_iter replace_all replace
edge_round_trip_example = edge_round_trip (new_key "n1" "n2" depends_on) link (tt, tt)

validate_hypothesis_delta-ok_example :
    (validate_hypothesis_delta sample ≡ ok tt)
    ↔ (All Spec.IsValidNode sample.nodes × All Spec.IsValidEdge sample.edges)
validate_hypothesis_delta-ok_example = Spec.validate_hypothesis_delta-ok sample

validate_node_tombstone_request-ok_example :
    (validate_node_tombstone_request tombstones ≡ ok tt) ↔ Requests.IsValidNodeTombstones tombstones
validate_node_tombstone_request-ok_example = Requests.validate_node_tombstone_request-ok tombstones

validate_edge_tombstone_request-ok_example :
    (validate_edge_tombstone_request edge_tombstones ≡ ok tt)
    ↔ Requests.IsValidEdgeTombstones edge_tombstones
validate_edge_tombstone_request-ok_example =
    Requests.validate_edge_tombstone_request-ok edge_tombstones

merge_assoc_example :
    (Node.merge
      (Node.merge (stored service "svc") (stored mechanism "svc")).0
      (stored service "api")).0
    ≡ (Node.merge
        (stored service "svc")
        (Node.merge (stored mechanism "svc") (stored service "api")).0).0
unfolding Node.new from_iter replace_all replace
merge_assoc_example =
    merge_assoc (stored service "svc") (stored mechanism "svc") (stored service "api") (tt, tt)
      (tt, tt)

merge_comm_example :
    Agree
      (Node.merge (stored service "svc") (stored mechanism "svc")).0
      (Node.merge (stored mechanism "svc") (stored service "svc")).0
unfolding Node.new from_iter replace_all replace
merge_comm_example = merge_comm (stored service "svc") (stored mechanism "svc") (tt, tt) (tt, tt)
