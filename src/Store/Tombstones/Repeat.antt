-- ===== src/Store/Tombstones/Repeat.antt =====
-- The two methods of store/memory.rs that add tombstones, when a call is repeated.
use mathlib.Core.List.{append_assoc, append-nil}
use tee.Base.{
  ◌≡◌, sym, ap, ◌∙◌, inl, inr, String, true, some, List, [], ◌∷◌, ◌++◌, ok, All, push, Option-cases,
  string_ord, string_key,
}
use tee.Collections.BTreeSet.{BTreeSet, contains, extend}
use tee.Collections.BTreeSet.Laws.{extend-extend}
use tee.Collections.BTreeSet.Elements.{contains_all-extend}
use tee.Collections.BTreeMap.{get, insert}
use tee.Collections.BTreeMap.Laws.{get-insert_self, insert-insert}
use tee.Lattices.{Lattices}
use tee.Proto
use tee.Domain.Edge.{EdgeKey, edge_ord, edge_key}
use tee.Store.State.{IncidentState, InnerState}
use tee.Store.Hypothesis.Nodes.{Nodes}
use tee.Store.Tombstones.{
  tombstone_node, tombstone_nodes, merge_node_tombstones, merge_edge_tombstones, no_tombstones,
}
use tee.Store.Tombstones.Edges.{taken}
use tee.Store.Tombstones.Laws.{
  with_nodes, with_edges, merge_node_tombstones-some, merge_edge_tombstones-some,
  merge_edge_tombstones-none,
}

module _ ⦃L : Lattices⦄ where
  tombstone_node-present :
      (nodes : Nodes) (id : String) (t : BTreeSet String) (r : Proto.TombstoneMergeResult)
      → contains t id ≡ true
      → tombstone_node nodes id t r
        ≡ (t, record r { already_tombstoned_ids = push r.already_tombstoned_ids id })
  unfolding tombstone_node
  tombstone_node-present nodes id t r h = rw (h, tombstone_node)

  -- Ids that are in the set are all reported as tombstoned already.
  tombstone_nodes-present :
      (nodes : Nodes) (ids : List String) (t : BTreeSet String) (r : Proto.TombstoneMergeResult)
      → All (λ y. contains t y ≡ true) ids
      → (tombstone_nodes nodes ids t r).1
        ≡ record r { already_tombstoned_ids = r.already_tombstoned_ids ++ ids }
  unfolding tombstone_nodes
  tombstone_nodes-present nodes [] t r h =
      λ i. record r { already_tombstoned_ids = sym (append-nil r.already_tombstoned_ids) i }
  tombstone_nodes-present nodes (id ∷ ids) t r h =
      rw (tombstone_nodes, tombstone_node-present nodes id t r h.0)
        (tombstone_nodes-present nodes ids t
            (record r { already_tombstoned_ids = push r.already_tombstoned_ids id }) h.1
          ∙ λ i. record r {
            already_tombstoned_ids = append_assoc r.already_tombstoned_ids (id ∷ []) ids i;
          })

  -- Repeating a write of tombstones under an incident writes nothing new.
  with_nodes_twice :
      (s : InnerState) (id : String) (incident : IncidentState) (ids : List String)
      → with_nodes
          (with_nodes s id incident ids)
          id
          (record incident { node_tombstones = extend incident.node_tombstones ids })
          ids
        ≡ with_nodes s id incident ids
  with_nodes_twice s id incident ids =
      ap (λ m. record s { incidents = m })
        (insert-insert s.incidents id _ _
          ∙ ap (λ t. insert s.incidents id (record incident { node_tombstones = t }))
              (extend-extend incident.node_tombstones ids))

  with_edges_twice :
      (s : InnerState) (id : String) (incident : IncidentState) (keys : List EdgeKey)
      → with_edges
          (with_edges s id incident keys)
          id
          (record incident { edge_tombstones = extend incident.edge_tombstones keys })
          keys
        ≡ with_edges s id incident keys
  with_edges_twice s id incident keys =
      ap (λ m. record s { incidents = m })
        (insert-insert s.incidents id _ _
          ∙ ap (λ t. insert s.incidents id (record incident { edge_tombstones = t }))
              (extend-extend incident.edge_tombstones keys))

  merge_node_tombstones_twice :
      (q : Proto.NodeTombstoneRequest) (s : InnerState) (incident : IncidentState)
      → get s.incidents q.incident_id ≡ some incident
      → merge_node_tombstones q (merge_node_tombstones q s).0 ≡ (
        (merge_node_tombstones q s).0,
        ok (record no_tombstones { already_tombstoned_ids = q.node_ids }),
      )
  merge_node_tombstones_twice q s incident h = rw (merge_node_tombstones-some q s h) (
      merge_node_tombstones-some q (with_nodes s q.incident_id incident q.node_ids)
        (get-insert_self s.incidents q.incident_id _)
      ∙ λ i. (
        with_nodes_twice s q.incident_id incident q.node_ids i,
        ok (
            tombstone_nodes-present s.nodes q.node_ids (extend incident.node_tombstones q.node_ids)
              no_tombstones (contains_all-extend incident.node_tombstones q.node_ids) i),
      ))

  merge_edge_tombstones_twice :
      (q : Proto.EdgeTombstoneRequest) (s : InnerState)
      → (merge_edge_tombstones q (merge_edge_tombstones q s).0).0 ≡ (merge_edge_tombstones q s).0
  merge_edge_tombstones_twice q s = elim (Option-cases (get s.incidents q.incident_id)) [
    | inl h ↦ let same = ap (λ o. o.0) (merge_edge_tombstones-none q s h) in rw same same
    | inr (incident, h) ↦ rw (merge_edge_tombstones-some q s h) (
        ap (λ o. o.0)
          (merge_edge_tombstones-some q (with_edges s q.incident_id incident (taken q.entries))
            (get-insert_self s.incidents q.incident_id _))
        ∙ with_edges_twice s q.incident_id incident (taken q.entries))
  ]

  -- Sending a node request for an incident that is there again changes nothing, and reports every
  -- id as tombstoned already. Sending an edge request again leaves the state as the first time left
  -- it, also where it failed.
  pub merge_tombstones_twice :
      (q : Proto.NodeTombstoneRequest) (p : Proto.EdgeTombstoneRequest) (s : InnerState)
      (incident : IncidentState)
      → get s.incidents q.incident_id ≡ some incident
      → (merge_node_tombstones q (merge_node_tombstones q s).0 ≡ (
        (merge_node_tombstones q s).0,
        ok (record no_tombstones { already_tombstoned_ids = q.node_ids }),
      ))
        × ((merge_edge_tombstones p (merge_edge_tombstones p s).0).0
            ≡ (merge_edge_tombstones p s).0)
  merge_tombstones_twice q p s incident h =
      (merge_node_tombstones_twice q s incident h, merge_edge_tombstones_twice p s)
