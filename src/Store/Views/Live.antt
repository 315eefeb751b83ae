-- ===== src/Store/Views/Live.antt =====
-- `get_live_view` of store/memory.rs after tombstones are added.
use tee.Base.{
  pos, Bool, err, false, sym, filter-map-filter, ◌≡◌, ap, ◌∙◌, inl, inr, String, not, ◌&&◌, some,
  List, map, arith, ok, filter, Option-cases, string_ord, string_key,
}
use tee.Collections.BTreeSet.{extend}
use tee.Collections.BTreeSet.Laws.{has, contains-extend}
use tee.Collections.BTreeMap.{get}
use tee.Collections.BTreeMap.Laws.{get-insert_self}
use tee.Lattices.{Lattices}
use tee.Proto
use tee.Domain.Edge.{new_key, EdgeKey, EdgeLattice, edge_ord, edge_key}
use tee.Convert.Facts.{edge_type_round_trip}
use tee.Store.Tombstones.Edges.{taken}
use tee.Convert.{edge_type_try_from, domain_node_to_proto, domain_edge_to_proto}
use tee.Store.State.{IncidentState, InnerState}
use tee.Store.Tombstones.{merge_edge_tombstones, merge_node_tombstones}
use tee.Store.Tombstones.Laws.{
  merge_edge_tombstones-some, with_edges, merge_node_tombstones-some, with_nodes,
}
use tee.Store.Views.{node_is_live, edge_is_live, node_message, edge_message, get_live_view}

module _ ⦃L : Lattices⦄ where
  abbrev pub live_graph : IncidentState → InnerState → Proto.CausalGraph
  live_graph incident s = record {
    nodes = map node_message (filter (λ e. node_is_live incident e.0) s.nodes);
    edges = map edge_message (filter (λ e. edge_is_live incident e.0) s.edges);
  }

  pub get_live_view-some :
      (id : String) (s : InnerState) {incident : IncidentState}
      → get s.incidents id ≡ some incident
      → get_live_view id s ≡ ok (live_graph incident s)
  unfolding get_live_view
  get_live_view-some id s h = rw (h, get_live_view)

  -- A live view is that of an incident.
  get_live_view-ok :
      (id : String) (s : InnerState) {g : Proto.CausalGraph}
      → get_live_view id s ≡ ok g
      → (incident : IncidentState) × (get s.incidents id ≡ some incident)
        × (g ≡ live_graph incident s)
  unfolding get_live_view
  get_live_view-ok id s h = elim (Option-cases (get s.incidents id)) [
    | inl e ↦ absurd (ground arith)
    | inr (i, e) ↦ (i, e, ground arith)
  ]

  -- The live graph of an incident that has more tombstones.
  live_graph-extend :
      (i : IncidentState) (ids : List String) (s : InnerState)
      → live_graph (record i { node_tombstones = extend i.node_tombstones ids }) s ≡ record {
        nodes = filter (λ n. not (has ids n.id)) (live_graph i s).nodes;
        edges =
            filter (λ e. not (has ids e.source) && not (has ids e.target)) (live_graph i s).edges;
      }
  unfolding node_is_live edge_is_live domain_node_to_proto domain_edge_to_proto
  live_graph-extend i ids s =
      let old = i.node_tombstones in
      let j = record i { node_tombstones = extend old ids } in
      λ k. record {
        nodes =
            filter-map-filter node_message (λ e. node_is_live i e.0) (λ e. node_is_live j e.0)
              (λ n. not (has ids n.id)) (λ e. ground (arith, contains-extend old ids e.0)) s.nodes
              k;
        edges =
            filter-map-filter edge_message (λ e. edge_is_live i e.0) (λ e. edge_is_live j e.0)
              (λ e. not (has ids e.source) && not (has ids e.target))
              (λ e.
                ground
                  (arith, contains-extend old ids e.0.source, contains-extend old ids e.0.target))
              s.edges k;
      }

  -- After a node request the incident's live view is the one before without the nodes that the
  -- request names, and without the edges that have one of these as an end.
  pub get_live_view-merge_node_tombstones :
      (q : Proto.NodeTombstoneRequest) (s : InnerState) (g : Proto.CausalGraph)
      → get_live_view q.incident_id s ≡ ok g
      → get_live_view q.incident_id (merge_node_tombstones q s).0
        ≡ ok (record {
          nodes = filter (λ n. not (has q.node_ids n.id)) g.nodes;
          edges =
              filter (λ e. not (has q.node_ids e.source) && not (has q.node_ids e.target)) g.edges;
        })
  get_live_view-merge_node_tombstones q s g h =
      let (i, e, same) = get_live_view-ok q.incident_id s h in
      rw (ap (λ o. o.0) (merge_node_tombstones-some q s e)) (
        get_live_view-some q.incident_id (with_nodes s q.incident_id i q.node_ids)
          (get-insert_self s.incidents q.incident_id _)
        ∙ ap (λ x. ok x)
            (live_graph-extend i q.node_ids s
              ∙ ap
                  (λ x. record {
                    nodes = filter (λ n. not (has q.node_ids n.id)) x.nodes;
                    edges =
                        filter (λ e. not (has q.node_ids e.source) && not (has q.node_ids e.target))
                          x.edges;
                  })
                  (sym same)))

  -- One of the keys is that of the edge in the message.
  abbrev pub names : List EdgeKey → Proto.Edge → Bool
  names keys e = elim (edge_type_try_from e.type) [
    | err _ ↦ false
    | ok t ↦ has keys (new_key e.source e.target t)
  ]

  names-message :
      (keys : List EdgeKey) (e : EdgeKey × EdgeLattice) → names keys (edge_message e) ≡ has keys e.0
  unfolding domain_edge_to_proto new_key
  names-message keys (k, l) = rw (names, (edge_type_round_trip k.edge_type (pos 0)).0)

  live_graph-extend_edges :
      (i : IncidentState) (keys : List EdgeKey) (s : InnerState)
      → live_graph (record i { edge_tombstones = extend i.edge_tombstones keys }) s
        ≡ record (live_graph i s) {
          edges = filter (λ e. not (names keys e)) (live_graph i s).edges;
        }
  unfolding node_is_live edge_is_live
  live_graph-extend_edges i keys s =
      let j = record i { edge_tombstones = extend i.edge_tombstones keys } in
      λ k. record (live_graph i s) {
        edges =
            filter-map-filter edge_message (λ e. edge_is_live i e.0) (λ e. edge_is_live j e.0)
              (λ e. not (names keys e))
              (λ e.
                ground (arith, contains-extend i.edge_tombstones keys e.0, names-message keys e))
              s.edges k;
      }

  -- After an edge request the incident's live view is the one before without the edges that the
  -- request names, up to the first entry whose type does not convert. Its nodes stay.
  pub get_live_view-merge_edge_tombstones :
      (q : Proto.EdgeTombstoneRequest) (s : InnerState) (g : Proto.CausalGraph)
      → get_live_view q.incident_id s ≡ ok g
      → get_live_view q.incident_id (merge_edge_tombstones q s).0
        ≡ ok (record g { edges = filter (λ e. not (names (taken q.entries) e)) g.edges })
  get_live_view-merge_edge_tombstones q s g h =
      let (i, e, same) = get_live_view-ok q.incident_id s h in
      rw (ap (λ o. o.0) (merge_edge_tombstones-some q s e)) (
        get_live_view-some q.incident_id (with_edges s q.incident_id i (taken q.entries))
          (get-insert_self s.incidents q.incident_id _)
        ∙ ap (λ x. ok x)
            (live_graph-extend_edges i (taken q.entries) s
              ∙ ap {A = Proto.CausalGraph}
                  (λ x. record x { edges = filter (λ e. not (names (taken q.entries) e)) x.edges })
                  (sym same)))
