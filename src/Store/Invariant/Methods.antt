-- ===== src/Store/Invariant/Methods.antt =====
-- store/memory.rs: the methods that write, and the invariant.
use tee.Base.{
  ℕ, ◌≡◌, ◌≢◌, inl, inr, String, Option, some, All, Bool-cases, Option-cases, Result-cases,
  string_key, string_ord,
}
use tee.Collections.BTreeSet.Laws.{extend-IsSorted}
use tee.Collections.BTreeMap.{get, insert, contains_key}
use tee.Collections.BTreeMap.Laws.{All-insert, get-All, insert-IsSorted}
use tee.Lattices.{Lattices}
use tee.Proto
use tee.Validation.Spec
use tee.Domain.Edge.{edge_ord}
use tee.Store.State.{InnerState, IncidentState, new}
use tee.Store.Hypothesis.{merge_nodes, merge_hypothesis, no_results}
use tee.Store.Hypothesis.Replay.{merge_hypothesis-failed, merge_hypothesis-merged}
use tee.Store.Incidents.{create_incident}
use tee.Store.Tombstones.{merge_node_tombstones, merge_edge_tombstones}
use tee.Store.Tombstones.Edges.{taken}
use tee.Store.Tombstones.Laws.{merge_node_tombstones-some, merge_edge_tombstones-some}
use tee.Store.Invariant.{IsValid, IsValidIncident}
use tee.Store.Invariant.Nodes.{merge_nodes-IsValid}
use tee.Store.Invariant.Edges.{merge_edges-IsValid}

module _ ⦃L : Lattices⦄ where
  pub new-IsValid : IsValid new
  unfolding new
  new-IsValid = record {
    nodes_sorted = tt;
    nodes_valid = tt;
    edges_sorted = tt;
    edges_valid = tt;
    incidents_sorted = tt;
    incidents_valid = tt;
  }

  -- Also where the delta fails to convert on the way.
  pub merge_hypothesis-IsValid :
      (d : Proto.HypothesisDelta) (s : InnerState)
      → All Spec.IsValidNode d.nodes
      → All Spec.IsValidEdge d.edges
      → IsValid s
      → IsValid (merge_hypothesis d s).0
  merge_hypothesis-IsValid d s vn ve v =
      let nodes =
        merge_nodes-IsValid d.nodes s.nodes no_results vn (v.nodes_sorted, v.nodes_valid) in
      elim (Result-cases (merge_nodes d.nodes s.nodes no_results).1) [
        | inr (e, h) ↦ rw (merge_hypothesis-failed d s h) (record {
          nodes_sorted = nodes.0;
          nodes_valid = nodes.1;
          edges_sorted = v.edges_sorted;
          edges_valid = v.edges_valid;
          incidents_sorted = v.incidents_sorted;
          incidents_valid = v.incidents_valid;
        })
        | inl (r, h) ↦
            let edges = merge_edges-IsValid d.edges s.edges r ve (v.edges_sorted, v.edges_valid) in
            rw (merge_hypothesis-merged d s h) (record {
              nodes_sorted = nodes.0;
              nodes_valid = nodes.1;
              edges_sorted = edges.0;
              edges_valid = edges.1;
              incidents_sorted = v.incidents_sorted;
              incidents_valid = v.incidents_valid;
            })
      ]

  -- Writing one valid incident.
  put_incident-IsValid :
      (s : InnerState) (id : String) (i : IncidentState)
      → IsValidIncident (id, i)
      → IsValid s
      → IsValid (record s { incidents = insert s.incidents id i })
  put_incident-IsValid s id i vi v = record {
    nodes_sorted = v.nodes_sorted;
    nodes_valid = v.nodes_valid;
    edges_sorted = v.edges_sorted;
    edges_valid = v.edges_valid;
    incidents_sorted = insert-IsSorted s.incidents id i v.incidents_sorted;
    incidents_valid = All-insert IsValidIncident s.incidents id i vi v.incidents_valid;
  }

  found :
      (s : InnerState) (id : String) {i : IncidentState}
      → IsValid s
      → get s.incidents id ≡ some i
      → IsValidIncident (id, i)
  found s id {i} v h = get-All IsValidIncident s.incidents id i v.incidents_valid h

  pub create_incident-IsValid :
      (now : Option (ℕ × ℕ)) (id : String) (s : InnerState)
      → id ≢ ""
      → IsValid s
      → IsValid (create_incident now id s).0
  unfolding create_incident
  create_incident-IsValid now id s n v = elim (Bool-cases (contains_key s.incidents id)) [
    | inl h ↦ rw (h, create_incident) v
    | inr h ↦
        rw (h, create_incident)
          (put_incident-IsValid s id _ (record { id = n; nodes_sorted = tt; edges_sorted = tt }) v)
  ]

  pub merge_node_tombstones-IsValid :
      (q : Proto.NodeTombstoneRequest) (s : InnerState)
      → IsValid s
      → IsValid (merge_node_tombstones q s).0
  unfolding merge_node_tombstones
  merge_node_tombstones-IsValid q s v = elim (Option-cases (get s.incidents q.incident_id)) [
    | inl h ↦ rw (h, merge_node_tombstones) v
    | inr (i, h) ↦
        let w = found s q.incident_id v h in
        rw (merge_node_tombstones-some q s h) (
          put_incident-IsValid s q.incident_id _
            (record {
              id = w.id;
              nodes_sorted = extend-IsSorted i.node_tombstones q.node_ids w.nodes_sorted;
              edges_sorted = w.edges_sorted;
            })
            v)
  ]

  pub merge_edge_tombstones-IsValid :
      (q : Proto.EdgeTombstoneRequest) (s : InnerState)
      → IsValid s
      → IsValid (merge_edge_tombstones q s).0
  unfolding merge_edge_tombstones
  merge_edge_tombstones-IsValid q s v = elim (Option-cases (get s.incidents q.incident_id)) [
    | inl h ↦ rw (h, merge_edge_tombstones) v
    | inr (i, h) ↦
        let w = found s q.incident_id v h in
        rw (merge_edge_tombstones-some q s h) (
          put_incident-IsValid s q.incident_id _
            (record {
              id = w.id;
              nodes_sorted = w.nodes_sorted;
              edges_sorted = extend-IsSorted i.edge_tombstones (taken q.entries) w.edges_sorted;
            })
            v)
  ]
