-- ===== src/Store/Tombstones/Laws.antt =====
-- The two methods of store/memory.rs that add tombstones, as a whole and when they are repeated.

use tee.Base.{◌⊎◌, length, ◌≡◌, ap, String, ◌||◌, none, some, List, ok, err, string_ord, string_key}
use tee.Collections.BTreeSet.{contains, extend}
use tee.Collections.BTreeSet.Laws.{has, contains-extend}
use tee.Collections.BTreeMap.{get, insert}
use tee.Lattices.{Lattices}
use tee.Proto
use tee.Domain.Edge.{EdgeKey, edge_ord, edge_key}
use tee.Store.State.{backend, incident_not_found, IncidentState, InnerState}
use tee.Store.Tombstones.{
  tombstone_nodes, tombstone_edges, merge_node_tombstones, merge_edge_tombstones, no_tombstones,
}
use tee.Store.Tombstones.Nodes.{tombstone_nodes-set, Reports, tombstone_nodes-Reports}
use tee.Convert.{ConversionError, show_conversion_error}
use tee.Store.Tombstones.Edges.{
  refusal, reported, tombstone_edges-result, taken, tombstone_edges-set,
}

module _ ⦃L : Lattices⦄ where
  -- The state with the node tombstones of an incident extended.
  abbrev pub with_nodes : InnerState → String → IncidentState → List String → InnerState
  with_nodes s id incident ids = record s {
    incidents =
        insert s.incidents id
          (record incident { node_tombstones = extend incident.node_tombstones ids });
  }

  -- The state with the edge tombstones of an incident extended.
  abbrev pub with_edges : InnerState → String → IncidentState → List EdgeKey → InnerState
  with_edges s id incident keys = record s {
    incidents =
        insert s.incidents id
          (record incident { edge_tombstones = extend incident.edge_tombstones keys });
  }

  pub merge_node_tombstones-some :
      (q : Proto.NodeTombstoneRequest) (s : InnerState) {incident : IncidentState}
      → get s.incidents q.incident_id ≡ some incident
      → merge_node_tombstones q s ≡ (
        with_nodes s q.incident_id incident q.node_ids,
        ok (tombstone_nodes s.nodes q.node_ids incident.node_tombstones no_tombstones).1,
      )
  unfolding merge_node_tombstones
  merge_node_tombstones-some q s {incident} h = rw (
    h,
    merge_node_tombstones,
    tombstone_nodes-set s.nodes q.node_ids incident.node_tombstones no_tombstones,
  )

  pub merge_edge_tombstones-some :
      (q : Proto.EdgeTombstoneRequest) (s : InnerState) {incident : IncidentState}
      → get s.incidents q.incident_id ≡ some incident
      → merge_edge_tombstones q s ≡ (
        with_edges s q.incident_id incident (taken q.entries),
        (tombstone_edges s.edges q.entries incident.edge_tombstones no_tombstones).1,
      )
  unfolding merge_edge_tombstones
  merge_edge_tombstones-some q s {incident} h = rw (
    h,
    merge_edge_tombstones,
    tombstone_edges-set s.edges q.entries incident.edge_tombstones no_tombstones,
  )

  pub merge_node_tombstones-none :
      (q : Proto.NodeTombstoneRequest) (s : InnerState)
      → get s.incidents q.incident_id ≡ none
      → merge_node_tombstones q s ≡ (s, err (incident_not_found q.incident_id))
  unfolding merge_node_tombstones
  merge_node_tombstones-none q s h = rw (h, merge_node_tombstones)

  pub merge_edge_tombstones-none :
      (q : Proto.EdgeTombstoneRequest) (s : InnerState)
      → get s.incidents q.incident_id ≡ none
      → merge_edge_tombstones q s ≡ (s, err (incident_not_found q.incident_id))
  unfolding merge_edge_tombstones
  merge_edge_tombstones-none q s h = rw (h, merge_edge_tombstones)

  -- For an incident that is there, a node request stores the ids it names beside those that were
  -- stored. The ids reported as applied are the new ones that the graph has, those reported as
  -- unmatched are the new ones that it does not have, and the three lists of the answer together
  -- have as many entries as the request has ids.
  pub merge_node_tombstones_lem :
      (q : Proto.NodeTombstoneRequest) (s : InnerState) (incident : IncidentState)
      → get s.incidents q.incident_id ≡ some incident
      → (r : Proto.TombstoneMergeResult) × (merge_node_tombstones q s
          ≡ (with_nodes s q.incident_id incident q.node_ids, ok r))
        × ((y : String)
            → contains (extend incident.node_tombstones q.node_ids) y
              ≡ contains incident.node_tombstones y || has q.node_ids y)
        × Reports s.nodes q.node_ids incident.node_tombstones no_tombstones r
  merge_node_tombstones_lem q s incident h = (
    _,
    merge_node_tombstones-some q s h,
    contains-extend incident.node_tombstones q.node_ids,
    tombstone_nodes-Reports s.nodes q.node_ids incident.node_tombstones no_tombstones,
  )

  -- For an incident that is there, an edge request stores the keys of its entries up to the first
  -- whose type does not convert, beside those that were stored. Where there is such an entry the
  -- method fails with the error of its conversion, and else it reports as many ids as there are
  -- entries.
  pub merge_edge_tombstones_lem :
      (q : Proto.EdgeTombstoneRequest) (s : InnerState) (incident : IncidentState)
      → get s.incidents q.incident_id ≡ some incident
      → ((merge_edge_tombstones q s).0 ≡ with_edges s q.incident_id incident (taken q.entries))
        × ((k : EdgeKey)
            → contains (extend incident.edge_tombstones (taken q.entries)) k
              ≡ contains incident.edge_tombstones k || has (taken q.entries) k)
        × (((f : ConversionError) × (refusal q.entries ≡ some f)
              × ((merge_edge_tombstones q s).1 ≡ err (backend (show_conversion_error f))))
            ⊎ ((r : Proto.TombstoneMergeResult) × (refusal q.entries ≡ none)
                × ((merge_edge_tombstones q s).1 ≡ ok r)
                × (reported r ≡ length q.entries)))
  merge_edge_tombstones_lem q s incident h =
      let outcome = merge_edge_tombstones-some q s h in
      (
        ap (λ o. o.0) outcome,
        contains-extend incident.edge_tombstones (taken q.entries),
        rw (ap (λ o. o.1) outcome)
            (tombstone_edges-result s.edges q.entries incident.edge_tombstones),
      )
