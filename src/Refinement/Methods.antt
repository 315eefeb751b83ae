-- ===== src/Refinement/Methods.antt =====
-- The methods that write, against those of the reference store.
use mathlib.Core.Option
use tee.Base.{
  true, [], ℕ, ◌≡◌, refl, ap, ◌∙◌, inl, inr, String, Bool, Option, ok, err, Result, Result-cases,
  Option-cases, string_key, string_ord, is_some,
}
use tee.Collections.BTreeSet
use tee.Collections.BTreeSet.{contains}
use tee.Collections.BTreeMap.{get}
use tee.Lattices.{Lattices}
use tee.Proto
use tee.Domain.Edge.{edge_ord, edge_key}
use tee.Store.State.{InnerState, IncidentState, StoreError}
use tee.Store.Hypothesis.{merge_nodes, merge_edges, merge_hypothesis, no_results}
use tee.Store.Hypothesis.Replay.{merge_hypothesis-failed, merge_hypothesis-merged}
use tee.Store.Incidents.{create_incident, timestamp_of}
use tee.Store.Tombstones.{
  tombstone_nodes, tombstone_edges, merge_node_tombstones, merge_edge_tombstones, no_tombstones,
}
use tee.Reference.{Graph, set}
use tee.Reference.Hypothesis
use tee.Reference.Tombstones
use tee.Refinement.{view, view_incident, view_incidents, view_nodes, view_edges}
use tee.Refinement.Maps.{view-insert}
use tee.Refinement.Entries.{IsComplete}
use tee.Refinement.Nodes.{merge_nodes-refines}
use tee.Refinement.Edges.{merge_edges-refines}
use tee.Refinement.Tombstones.{
  known_nodes, known_edges, tombstone_nodes-refines, tombstone_edges-refines,
}

module _ ⦃L : Lattices⦄ where
  -- The view of what a method leaves behind, and its result.
  abbrev pub seen : {A : Type 0} → InnerState × Result A StoreError → Graph × Result A StoreError
  seen o = (view o.0, o.1)

  pub merge_hypothesis-refines :
      (d : Proto.HypothesisDelta) (s : InnerState)
      → IsComplete s.nodes
      → seen (merge_hypothesis d s) ≡ Hypothesis.merge_hypothesis d (view s)
  unfolding Hypothesis.merge_hypothesis
  merge_hypothesis-refines d s c =
      let nodes = merge_nodes-refines d.nodes s.nodes no_results c in
      elim (Result-cases (merge_nodes d.nodes s.nodes no_results).1) [
        | inr (e, h) ↦
            rw (merge_hypothesis-failed d s h, Hypothesis.merge_hypothesis, ← nodes, h)
              (λ i. (record (view s) { nodes = (nodes i).0 }, err e))
        | inl (r, h) ↦
            let edges = merge_edges-refines d.edges s.edges r in
            rw (merge_hypothesis-merged d s h, Hypothesis.merge_hypothesis, ← nodes, h, ← edges)
              (λ i. (
                record (view s) {
                  nodes = (nodes i).0;
                  edges = view_edges (merge_edges d.edges s.edges r).0;
                },
                (merge_edges d.edges s.edges r).1,
              ))
      ]

  pub create_incident-refines :
      (now : Option (ℕ × ℕ)) (id : String) (s : InnerState)
      → seen (create_incident now id s) ≡ Tombstones.create_incident now id (view s)
  unfolding create_incident Tombstones.create_incident BTreeSet.get
  create_incident-refines now id s = elim (Option-cases (get s.incidents id)) [
    | inr (i, h) ↦ rw (h, create_incident, Tombstones.create_incident)
    | inl h ↦
        rw (h, create_incident, Tombstones.create_incident)
          (λ k. (
            record (view s) {
              incidents =
                  view-insert (Option.map view_incident) s.incidents id
                    (record {
                      created_at = timestamp_of now;
                      node_tombstones = [];
                      edge_tombstones = [];
                    })
                    refl k;
            },
            ok (record { incident_id = id; created = true }),
          ))
  ]

  nodes_loop :
      (q : Proto.NodeTombstoneRequest) (s : InnerState) (c : IsComplete s.nodes) (i : IncidentState)
      → ◌≡◌ {A = (String → Bool) × Proto.TombstoneMergeResult}
          (
            contains (tombstone_nodes s.nodes q.node_ids i.node_tombstones no_tombstones).0,
            (tombstone_nodes s.nodes q.node_ids i.node_tombstones no_tombstones).1,
          )
          (Tombstones.bury_nodes
            (λ id. is_some (view_nodes s.nodes id))
            q.node_ids
            (contains i.node_tombstones)
            no_tombstones)
  nodes_loop q s c i =
      tombstone_nodes-refines s.nodes q.node_ids i.node_tombstones no_tombstones
      ∙ ap
          (λ known.
            Tombstones.bury_nodes known q.node_ids (contains i.node_tombstones) no_tombstones)
          (known_nodes s.nodes c)

  edges_loop :
      (q : Proto.EdgeTombstoneRequest) (s : InnerState) (i : IncidentState)
      → (
        contains (tombstone_edges s.edges q.entries i.edge_tombstones no_tombstones).0,
        (tombstone_edges s.edges q.entries i.edge_tombstones no_tombstones).1,
      )
        ≡ Tombstones.bury_edges
            (λ k. is_some (view_edges s.edges k))
            q.entries
            (contains i.edge_tombstones)
            no_tombstones
  edges_loop q s i =
      tombstone_edges-refines s.edges q.entries i.edge_tombstones no_tombstones
      ∙ ap
          (λ known.
            Tombstones.bury_edges known q.entries (contains i.edge_tombstones) no_tombstones)
          (known_edges s.edges)

  pub merge_node_tombstones-refines :
      (q : Proto.NodeTombstoneRequest) (s : InnerState)
      → IsComplete s.nodes
      → seen (merge_node_tombstones q s) ≡ Tombstones.merge_node_tombstones q (view s)
  unfolding merge_node_tombstones Tombstones.merge_node_tombstones
  merge_node_tombstones-refines q s c = elim (Option-cases (get s.incidents q.incident_id)) [
    | inl h ↦ rw (h, merge_node_tombstones, Tombstones.merge_node_tombstones)
    | inr (i, h) ↦
        rw (h, merge_node_tombstones, Tombstones.merge_node_tombstones)
          (ap
              (λ m. (
                record (view s) { incidents = m },
                ok (tombstone_nodes s.nodes q.node_ids i.node_tombstones no_tombstones).1,
              ))
              (view-insert (Option.map view_incident) s.incidents q.incident_id _ refl)
            ∙ λ k. (
              record (view s) {
                incidents =
                    set (view_incidents s.incidents) q.incident_id
                      (record (view_incident i) { dead_nodes = (nodes_loop q s c i k).0 });
              },
              ok (nodes_loop q s c i k).1,
            ))
  ]

  pub merge_edge_tombstones-refines :
      (q : Proto.EdgeTombstoneRequest) (s : InnerState)
      → seen (merge_edge_tombstones q s) ≡ Tombstones.merge_edge_tombstones q (view s)
  unfolding merge_edge_tombstones Tombstones.merge_edge_tombstones
  merge_edge_tombstones-refines q s = elim (Option-cases (get s.incidents q.incident_id)) [
    | inl h ↦ rw (h, merge_edge_tombstones, Tombstones.merge_edge_tombstones)
    | inr (i, h) ↦
        rw (h, merge_edge_tombstones, Tombstones.merge_edge_tombstones)
          (ap
              (λ m. (
                record (view s) { incidents = m },
                (tombstone_edges s.edges q.entries i.edge_tombstones no_tombstones).1,
              ))
              (view-insert (Option.map view_incident) s.incidents q.incident_id _ refl)
            ∙ λ k. (
              record (view s) {
                incidents =
                    set (view_incidents s.incidents) q.incident_id
                      (record (view_incident i) { dead_edges = (edges_loop q s i k).0 });
              },
              (edges_loop q s i k).1,
            ))
  ]
