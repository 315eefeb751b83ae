-- ===== src/Store/Growth/Methods.antt =====
-- store/memory.rs: the states before and after each method that writes, compared.
use tee.Base.{
  ℕ, ◌≡◌, refl, inl, inr, String, Option, some, List, arith, Bool-cases, Option-cases, Result-cases,
  string_key, string_ord,
}
use tee.Base.Fold.{fold_until-keeps_any}
use tee.Collections.BTreeSet.Laws.{contains-extend}
use tee.Collections.BTreeMap.{get, insert, contains_key}
use tee.Lattices.{Lattices}
use tee.Proto
use tee.Domain.Node.{NodeLattice}
use tee.Domain.Node.Facts
use tee.Domain.Edge
use tee.Domain.Edge.{EdgeKey, EdgeLattice, edge_key, edge_ord}
use tee.Domain.Edge.Merge
use tee.Convert.{proto_node_to_domain, proto_edge_to_domain}
use tee.Store.State.{InnerState, IncidentState}
use tee.Store.Hypothesis.{merge_nodes, merge_edges, merge_hypothesis, no_results}
use tee.Store.Hypothesis.Nodes.{Nodes, put_node, put_node_cases, merge_nodes-fold}
use tee.Store.Hypothesis.Edges.{Edges, put_edge, put_edge_cases, merge_edges-fold}
use tee.Store.Hypothesis.Replay.{merge_hypothesis-failed, merge_hypothesis-merged}
use tee.Store.Incidents.{create_incident}
use tee.Store.Tombstones.{merge_node_tombstones, merge_edge_tombstones}
use tee.Store.Tombstones.Edges.{taken}
use tee.Store.Tombstones.Laws.{merge_node_tombstones-some, merge_edge_tombstones-some}
use tee.Store.Growth.{
  Keeps, Keeps-refl, Keeps-insert, Keeps-trans, IncidentGrows, IncidentGrows-refl, Grows,
  Grows-refl,
}

module _ ⦃L : Lattices⦄ where
  put_node-Keeps : (e : String × NodeLattice) (m : Nodes) → Keeps Facts.Grows m (put_node e m)
  put_node-Keeps (id, l) m =
      put_node_cases (Keeps Facts.Grows m) id l m
        (λ h. Keeps-insert Facts.Grows Facts.Grows-refl m id l (λ a g. absurd (ground arith)))
        (λ a h c. Keeps-refl Facts.Grows Facts.Grows-refl m)
        (λ a h c.
          Keeps-insert Facts.Grows Facts.Grows-refl m id _
            (λ b g. rw (grown b a g h) (Facts.merge-Grows a l c)))
    where
      grown : (b a : NodeLattice) → get m id ≡ some b → get m id ≡ some a → b ≡ a
      grown b a g h = ground arith

  merge_nodes-Keeps :
      (ns : List Proto.Node) (m : Nodes) (r : Proto.HypothesisMergeResult)
      → Keeps Facts.Grows m (merge_nodes ns m r).0
  merge_nodes-Keeps ns m r = rw (merge_nodes-fold ns m r) (
      fold_until-keeps_any (Keeps Facts.Grows m) proto_node_to_domain put_node
        (λ _ e n _ h.
          Keeps-trans Facts.Grows (λ a b c. Facts.Grows-trans) m n (put_node e n) h
            (put_node-Keeps e n))
        ns m (Keeps-refl Facts.Grows Facts.Grows-refl m))

  put_edge-Keeps : (e : EdgeKey × EdgeLattice) (m : Edges) → Keeps Merge.Grows m (put_edge e m)
  put_edge-Keeps (k, l) m =
      put_edge_cases (Keeps Merge.Grows m) k l m
        (λ h. Keeps-insert Merge.Grows (λ a p q e. e) m k l (λ a g. absurd (ground arith)))
        (λ a h.
          Keeps-insert Merge.Grows (λ a p q e. e) m k (Edge.merge a l).0
            (λ b g. rw (grown b a g h) (Merge.merge-Grows a l)))
    where
      grown : (b a : EdgeLattice) → get m k ≡ some b → get m k ≡ some a → b ≡ a
      grown b a g h = ground arith

  merge_edges-Keeps :
      (es : List Proto.Edge) (m : Edges) (r : Proto.HypothesisMergeResult)
      → Keeps Merge.Grows m (merge_edges es m r).0
  merge_edges-Keeps es m r = rw (merge_edges-fold es m r) (
      fold_until-keeps_any (Keeps Merge.Grows m) proto_edge_to_domain put_edge
        (λ _ e n _ h.
          Keeps-trans Merge.Grows (λ a b c k l p q g. l p q (k p q g)) m n (put_edge e n) h
            (put_edge-Keeps e n))
        es m (Keeps-refl Merge.Grows (λ a p q g. g) m))

  pub merge_hypothesis-Grows :
      (d : Proto.HypothesisDelta) (s : InnerState) → Grows s (merge_hypothesis d s).0
  merge_hypothesis-Grows d s = elim (Result-cases (merge_nodes d.nodes s.nodes no_results).1) [
    | inr (e, h) ↦ rw (merge_hypothesis-failed d s h) (record {
      nodes = merge_nodes-Keeps d.nodes s.nodes no_results;
      edges = (Grows-refl s).edges;
      incidents = (Grows-refl s).incidents;
    })
    | inl (r, h) ↦ rw (merge_hypothesis-merged d s h) (record {
      nodes = merge_nodes-Keeps d.nodes s.nodes no_results;
      edges = merge_edges-Keeps d.edges s.edges r;
      incidents = (Grows-refl s).incidents;
    })
  ]

  -- Writing an incident that is new, or that has only grown, keeps all else.
  put_incident-Grows :
      (s : InnerState) (id : String) (j : IncidentState)
      → ((i : IncidentState) → get s.incidents id ≡ some i → IncidentGrows i j)
      → Grows s (record s { incidents = insert s.incidents id j })
  put_incident-Grows s id j h = record {
    nodes = (Grows-refl s).nodes;
    edges = (Grows-refl s).edges;
    incidents = Keeps-insert IncidentGrows IncidentGrows-refl s.incidents id j h;
  }

  pub create_incident-Grows :
      (now : Option (ℕ × ℕ)) (id : String) (s : InnerState) → Grows s (create_incident now id s).0
  unfolding create_incident
  create_incident-Grows now id s = elim (Bool-cases (contains_key s.incidents id)) [
    | inl h ↦ rw (h, create_incident) (Grows-refl s)
    | inr h ↦ rw (h, create_incident) (put_incident-Grows s id _ (λ i g. absurd (ground arith)))
  ]

  pub merge_node_tombstones-Grows :
      (q : Proto.NodeTombstoneRequest) (s : InnerState) → Grows s (merge_node_tombstones q s).0
  unfolding merge_node_tombstones
  merge_node_tombstones-Grows q s = elim (Option-cases (get s.incidents q.incident_id)) [
    | inl h ↦ rw (h, merge_node_tombstones) (Grows-refl s)
    | inr (i, h) ↦ rw (merge_node_tombstones-some q s h) (
        put_incident-Grows s q.incident_id _ (λ j g.
          let same : j ≡ i = ground arith in
          rw same (record {
            created = refl;
            nodes = λ y e. ground (arith, contains-extend i.node_tombstones q.node_ids y);
            edges = λ k e. e;
          })))
  ]

  pub merge_edge_tombstones-Grows :
      (q : Proto.EdgeTombstoneRequest) (s : InnerState) → Grows s (merge_edge_tombstones q s).0
  unfolding merge_edge_tombstones
  merge_edge_tombstones-Grows q s = elim (Option-cases (get s.incidents q.incident_id)) [
    | inl h ↦ rw (h, merge_edge_tombstones) (Grows-refl s)
    | inr (i, h) ↦ rw (merge_edge_tombstones-some q s h) (
        put_incident-Grows s q.incident_id _ (λ j g.
          let same : j ≡ i = ground arith in
          rw same (record {
            created = refl;
            nodes = λ y e. e;
            edges = λ k e. ground (arith, contains-extend i.edge_tombstones (taken q.entries) k);
          })))
  ]
