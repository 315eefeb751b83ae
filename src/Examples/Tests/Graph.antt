-- ===== src/Examples/Tests/Graph.antt =====
-- The tests of domain/graph.rs.
use tee.Base.{
  ◌≡◌, refl, ◌==◌, Bool, true, false, not, ◌&&◌, String, Option, none, some, [], ◌∷◌, length,
  string_key,
}
use tee.Collections.BTreeSet.{from_iter, extend, replace, insert}
use tee.Collections.BTreeMap
use tee.Collections.BTreeMap.{get, contains_key}
use tee.Domain.Types.{service, infrastructure, depends_on, edge_type_key}
use tee.Domain.Provenance
use tee.Domain.Provenance.{Provenance, provenance_ord}
use tee.Domain.Node
use tee.Domain.Node.{NodeLattice}
use tee.Domain.Edge
use tee.Domain.Edge.{EdgeKey, EdgeLattice, edge_ord, edge_key}
use tee.Domain.Graph.{NodeMap, EdgeMap, node_merge, edge_merge}
use tee.Examples.Model.{lattices}
use tee.Examples.Tests.Run.{all_hold}
use tee.Examples.Tests.Node.{prov_set}

-- `NodeMap::new(BTreeMap::from([(id, node)]))`, and the same for an edge.
abbrev node_map : String → NodeLattice → NodeMap
node_map id n = lattices.map_new (BTreeMap.insert [] id n)

abbrev edge_map : EdgeKey → EdgeLattice → EdgeMap
edge_map k e = lattices.map_new (BTreeMap.insert [] k e)

-- What is looked at under `get(..).unwrap()`.
abbrev on_some : {A : Type 0} → Option A → (A → Bool) → Bool
on_some none test = false
on_some (some a) test = test a

abbrev node_map_merge_adds_new_node : Bool
node_map_merge_adds_new_node =
    let graph : NodeMap = lattices.map_default in
    let delta = node_map "node-1" (Node.new service "svc" true (prov_set (("a", "t") ∷ []))) in
    let (graph', changed) = lattices.map_merge graph delta in
    changed && contains_key (lattices.map_reveal graph') "node-1"

abbrev node_map_merge_grows_provenance : Bool
node_map_merge_grows_provenance =
    let graph = node_map "n1" (Node.new service "svc" true (prov_set (("a", "t1") ∷ []))) in
    let delta = node_map "n1" (Node.new service "svc" true (prov_set (("b", "t2") ∷ []))) in
    let (graph', changed) = lattices.map_merge graph delta in
    changed
    && on_some (get (lattices.map_reveal graph') "n1")
        λ node. length (lattices.set_reveal node.provenance) == 2 && not (Node.has_conflict node)

abbrev node_map_merge_detects_conflict : Bool
node_map_merge_detects_conflict =
    let graph = node_map "n1" (Node.new service "svc" true (prov_set (("a", "t") ∷ []))) in
    let delta = node_map "n1" (Node.new infrastructure "svc" true (prov_set (("b", "t") ∷ []))) in
    let graph' = (lattices.map_merge graph delta).0 in
    on_some (get (lattices.map_reveal graph') "n1") λ node. Node.has_conflict node

abbrev edge_map_merge_adds_new_edge : Bool
edge_map_merge_adds_new_edge =
    let graph : EdgeMap = lattices.map_default in
    let key = Edge.new_key "a" "b" depends_on in
    let delta = edge_map key (Edge.new (prov_set (("agent-1", "t") ∷ []))) in
    let (graph', changed) = lattices.map_merge graph delta in
    changed && contains_key (lattices.map_reveal graph') key

abbrev edge_map_merge_grows_provenance : Bool
edge_map_merge_grows_provenance =
    let key = Edge.new_key "a" "b" depends_on in
    let graph = edge_map key (Edge.new (prov_set (("agent-1", "t1") ∷ []))) in
    let delta = edge_map key (Edge.new (prov_set (("agent-2", "t2") ∷ []))) in
    let (graph', changed) = lattices.map_merge graph delta in
    changed
    && on_some (get (lattices.map_reveal graph') key)
        λ edge. length (lattices.set_reveal edge.provenance) == 2

tests_pass :
    all_hold (
      node_map_merge_adds_new_node ∷ node_map_merge_grows_provenance
      ∷ node_map_merge_detects_conflict ∷ edge_map_merge_adds_new_edge
      ∷ edge_map_merge_grows_provenance ∷ [])
    ≡ true
unfolding Node.new Node.merge Node.has_conflict Node.is_bot Edge.new Edge.merge Edge.is_bot
    Edge.new_key Edge.cmp edge_key edge_ord edge_type_key Provenance.new Provenance.cmp from_iter
    extend replace insert provenance_ord string_key get BTreeMap.insert
tests_pass = refl
