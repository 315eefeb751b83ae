-- ===== src/Examples/Tests/Store/Tombstones.antt =====
-- The tests of `create_incident`, of the tombstones, and of the reads that return them.
use tee.Base.{
  ◌≡◌, refl, ◌==◌, Bool, true, false, not, ok, err, [], ◌∷◌, length, is_nil, is_some, string_eq,
  string_key, string_ord, Result,
}
use tee.Collections.BTreeSet
use tee.Collections.BTreeMap.{get, insert}
use tee.Domain.Types.{edge_type_key}
use tee.Domain.Edge
use tee.Domain.Edge.{edge_ord, edge_key}
use tee.Convert
use tee.Store.State.{StoreError, incident_not_found, backend, new}
use tee.Store.Hypothesis
use tee.Store.Incidents
use tee.Store.Incidents.{get_incident_context}
use tee.Store.Tombstones
use tee.Store.Tombstones.{get_tombstones}
use tee.Examples.Model.{lattices}
use tee.Examples.Tests.Run.{
  Test, ◌>>=◌, ◌>>◌, assert, reads, asks, unwrap, strings_eq, passes, all_hold,
}
use tee.Examples.Tests.Store.{
  make_delta, merge, create, bury_nodes, bury_edges, service, depends, bury_node, bury_edge,
}

abbrev create_incident_new : Test (Unit {0})
create_incident_new = do
  result ← create "inc-1"
  assert result.created
  assert (string_eq.beq result.incident_id "inc-1")

abbrev create_incident_idempotent : Test (Unit {0})
create_incident_idempotent = do create "inc-1"; result ← create "inc-1"; assert (not result.created)

-- `matches!(result, Err(StoreError::IncidentNotFound(_)))`.
abbrev is_not_found : {A : Type 0} → Result A StoreError → Bool
is_not_found (ok _) = false
is_not_found (err (incident_not_found _)) = true
is_not_found (err (backend _)) = false

abbrev get_incident_context_not_found : Test (Unit {0})
get_incident_context_not_found = do
  result ← asks (get_incident_context "nope")
  assert (is_not_found result)

abbrev get_incident_context_returns_tombstones : Test (Unit {0})
get_incident_context_returns_tombstones = do
  create "inc-1"
  merge (make_delta (service "n1" "svc" ∷ []) [])
  bury_nodes (bury_node "n1")
  ctx ← reads (get_incident_context "inc-1")
  assert (string_eq.beq ctx.incident_id "inc-1")
  assert (is_some ctx.created_at)
  tombstones ← unwrap ctx.tombstones
  assert (strings_eq tombstones.node_ids ("n1" ∷ []))

abbrev tombstone_applied_for_existing_node : Test (Unit {0})
tombstone_applied_for_existing_node = do
  create "inc-1"
  merge (make_delta (service "n1" "svc" ∷ []) [])
  result ← bury_nodes (bury_node "n1")
  assert (strings_eq result.applied_ids ("n1" ∷ []))
  assert (is_nil result.already_tombstoned_ids)
  assert (is_nil result.unmatched_ids)

abbrev tombstone_unmatched_for_missing_node : Test (Unit {0})
tombstone_unmatched_for_missing_node = do
  create "inc-1"
  result ← bury_nodes (bury_node "ghost")
  assert (is_nil result.applied_ids)
  assert (strings_eq result.unmatched_ids ("ghost" ∷ []))

abbrev tombstone_idempotent : Test (Unit {0})
tombstone_idempotent = do
  create "inc-1"
  merge (make_delta (service "n1" "svc" ∷ []) [])
  bury_nodes (bury_node "n1")
  result ← bury_nodes (bury_node "n1")
  assert (is_nil result.applied_ids)
  assert (strings_eq result.already_tombstoned_ids ("n1" ∷ []))

abbrev edge_tombstone_applied : Test (Unit {0})
edge_tombstone_applied = do
  create "inc-1"
  merge (make_delta [] (depends "a" "b" ∷ []))
  result ← bury_edges (bury_edge "a" "b")
  assert (length result.applied_ids == 1)

abbrev get_tombstones_returns_sets : Test (Unit {0})
get_tombstones_returns_sets = do
  create "inc-1"
  merge (make_delta (service "n1" "svc" ∷ []) (depends "n1" "n2" ∷ []))
  bury_nodes (bury_node "n1")
  bury_edges (bury_edge "n1" "n2")
  tombstones ← reads (get_tombstones "inc-1")
  assert (strings_eq tombstones.node_ids ("n1" ∷ []))
  assert (length tombstones.edge_entries == 1)

tests_pass :
    all_hold (
      passes create_incident_new
      ∷ passes create_incident_idempotent
      ∷ passes get_incident_context_not_found
      ∷ passes get_incident_context_returns_tombstones
      ∷ passes tombstone_applied_for_existing_node
      ∷ passes tombstone_unmatched_for_missing_node
      ∷ passes tombstone_idempotent
      ∷ passes edge_tombstone_applied
      ∷ passes get_tombstones_returns_sets
      ∷ [])
    ≡ true
unfolding new get insert BTreeSet.get BTreeSet.insert Hypothesis.merge_hypothesis
    Hypothesis.merge_nodes Hypothesis.merge_edges Hypothesis.merge_node Hypothesis.merge_edge
    Hypothesis.edge_id Incidents.create_incident Incidents.get_incident_context
    Incidents.tombstone_set Tombstones.merge_node_tombstones Tombstones.merge_edge_tombstones
    Tombstones.tombstone_nodes Tombstones.tombstone_edges Tombstones.tombstone_node
    Tombstones.tombstone_edge Tombstones.get_tombstones Edge.new_key Edge.cmp edge_key edge_ord
    edge_type_key Convert.node_type_try_from Convert.edge_type_try_from Convert.proto_node_to_domain
    Convert.proto_edge_to_domain string_key string_ord
tests_pass = refl
