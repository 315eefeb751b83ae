-- ===== src/Examples/Tests/Store/Hypothesis.antt =====
-- The tests of `merge_hypothesis`.
use tee.Base.{◌≡◌, refl, ◌==◌, true, [], ◌∷◌, length, is_nil, string_eq, string_key}
use tee.Collections.BTreeMap.{get, insert}
use tee.Proto
use tee.Proto.{node_type_as_i32, edge_type_as_i32}
use tee.Domain.Types.{edge_type_key}
use tee.Domain.Provenance.{provenance_ord}
use tee.Domain.Node
use tee.Domain.Edge
use tee.Domain.Edge.{edge_ord, edge_key}
use tee.Convert
use tee.Store.State.{new}
use tee.Store.Hypothesis
use tee.Examples.Data.{make_node}
use tee.Examples.Tests.Run.{Test, ◌>>=◌, ◌>>◌, assert, at, strings_eq, passes, all_hold}
use tee.Examples.Tests.Store.{make_delta, merge, service, depends}

abbrev merge_creates_new_nodes : Test (Unit {0})
merge_creates_new_nodes = do
  let delta = make_delta (service "n1" "svc" ∷ []) []
  result ← merge delta
  assert (strings_eq result.created_ids ("n1" ∷ []))
  assert (is_nil result.merged_ids)
  assert (is_nil result.conflicts)

abbrev merge_idempotent_same_node : Test (Unit {0})
merge_idempotent_same_node = do
  let delta = make_delta (service "n1" "svc" ∷ []) []
  merge delta
  result ← merge delta
  assert (is_nil result.created_ids)
  assert (strings_eq result.merged_ids ("n1" ∷ []))
  assert (is_nil result.conflicts)

abbrev merge_detects_type_conflict : Test (Unit {0})
merge_detects_type_conflict = do
  merge (make_delta (service "n1" "svc" ∷ []) [])
  let delta2 = make_delta (make_node "n1" (node_type_as_i32 Proto.infrastructure) "svc" ∷ []) []
  result ← merge delta2
  assert (is_nil result.created_ids)
  assert (is_nil result.merged_ids)
  assert (length result.conflicts == 1)
  conflict ← at result.conflicts 0
  assert (string_eq.beq conflict.id "n1")
  assert (string_eq.beq conflict.field "type")

abbrev merge_conflict_does_not_persist : Test (Unit {0})
merge_conflict_does_not_persist = do
  merge (make_delta (service "n1" "svc" ∷ []) [])
  merge (make_delta (make_node "n1" (node_type_as_i32 Proto.infrastructure) "svc" ∷ []) [])
  result ← merge (make_delta (service "n1" "svc" ∷ []) [])
  assert (is_nil result.conflicts)
  assert (strings_eq result.merged_ids ("n1" ∷ []))

abbrev merge_creates_and_merges_edges : Test (Unit {0})
merge_creates_and_merges_edges = do
  result1 ← merge (make_delta [] (depends "a" "b" ∷ []))
  assert (length result1.created_ids == 1)
  result2 ← merge (make_delta [] (depends "a" "b" ∷ []))
  assert (length result2.merged_ids == 1)

tests_pass :
    all_hold (
      passes merge_creates_new_nodes
      ∷ passes merge_idempotent_same_node
      ∷ passes merge_detects_type_conflict
      ∷ passes merge_conflict_does_not_persist
      ∷ passes merge_creates_and_merges_edges
      ∷ [])
    ≡ true
unfolding new get insert Hypothesis.merge_hypothesis Hypothesis.merge_nodes Hypothesis.merge_edges
    Hypothesis.merge_node Hypothesis.merge_edge Hypothesis.conflict_report Hypothesis.edge_id
    Node.new Node.merge Node.has_conflict Node.conflict_field Edge.new Edge.merge Edge.new_key
    Edge.cmp edge_key edge_ord edge_type_key Convert.node_type_try_from Convert.edge_type_try_from
    Convert.proto_node_to_domain Convert.proto_edge_to_domain string_key
tests_pass = refl
