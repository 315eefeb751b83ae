-- ===== src/Store/Hypothesis/Absorbed.antt =====
-- `merge_hypothesis` of store/memory.rs with a delta that was merged before, at any later time.
use tee.Base.{◌≡◌, ap, ◌∙◌, ◌⊎◌, inl, inr, none, arith}
use tee.Base.Fold.{
  fold_until, Settled, Settled-stays, fold_until-keeps_any, fold_until_absorbed, fold_until-Settled,
}
use tee.Lattices.{Lattices}
use tee.Proto
use tee.Convert.{proto_node_to_domain, proto_edge_to_domain}
use tee.Store.State.{InnerState}
use tee.Store.Hypothesis.{merge_hypothesis, no_results}
use tee.Store.Hypothesis.Nodes
use tee.Store.Hypothesis.Nodes.{
  put_node, merge_nodes-fold, put_node-absorbed, put_node-absorbs, put_node-stays,
}
use tee.Store.Hypothesis.Edges
use tee.Store.Hypothesis.Edges.{
  put_edge, merge_edges-fold, put_edge-absorbed, put_edge-absorbs, put_edge-stays,
}
use tee.Store.Hypothesis.Replay.{
  first_error, merge_nodes-error, merge_hypothesis-failed, merge_hypothesis-merged,
}

module _ ⦃L : Lattices⦄ where
  abbrev AllNodesConvert : Proto.HypothesisDelta → Type 0
  AllNodesConvert d = first_error proto_node_to_domain d.nodes ≡ none

  abbrev nodes_after : Proto.HypothesisDelta → InnerState → Nodes.Nodes
  nodes_after d s = fold_until proto_node_to_domain put_node d.nodes s.nodes

  abbrev edges_after : Proto.HypothesisDelta → InnerState → Edges.Edges
  edges_after d s = fold_until proto_edge_to_domain put_edge d.edges s.edges

  -- The two ways in which the call leaves the state.
  merge_hypothesis_cases :
      (d : Proto.HypothesisDelta) (s : InnerState)
      → (AllNodesConvert d
          × ((merge_hypothesis d s).0
              ≡ record s { nodes = nodes_after d s; edges = edges_after d s }))
        ⊎ ((AllNodesConvert d → ⊥)
            × ((merge_hypothesis d s).0 ≡ record s { nodes = nodes_after d s }))
  merge_hypothesis_cases d s = elim (merge_nodes-error d.nodes s.nodes no_results) [
    | inl (e, f, g) ↦ inr (
      (λ h. ground arith),
      ap (λ o. o.0) (merge_hypothesis-failed d s g) ∙ λ i. record s {
        nodes = merge_nodes-fold d.nodes s.nodes no_results i;
      },
    )
    | inr (r, f, g) ↦ inl (
      f,
      ap (λ o. o.0) (merge_hypothesis-merged d s g) ∙ λ i. record s {
        nodes = merge_nodes-fold d.nodes s.nodes no_results i;
        edges = merge_edges-fold d.edges s.edges r i;
      },
    )
  ]

  -- What a delta has to add is in the store.
  pub record IsAbsorbed (d : Proto.HypothesisDelta) (s : InnerState) : Type 0 where
    pub nodes : Settled proto_node_to_domain Nodes.AddsNothing d.nodes s.nodes
    pub edges : AllNodesConvert d → Settled proto_edge_to_domain Edges.AddsNothing d.edges s.edges

  pub merge_hypothesis-idle :
      (d : Proto.HypothesisDelta) (s : InnerState) → IsAbsorbed d s → (merge_hypothesis d s).0 ≡ s
  merge_hypothesis-idle d s a = elim (merge_hypothesis_cases d s) [
    | inl (c, e) ↦ e ∙ λ i. record s { nodes = same_nodes i; edges = same_edges c i }
    | inr (c, e) ↦ e ∙ λ i. record s { nodes = same_nodes i }
  ]
    where
      same_nodes : nodes_after d s ≡ s.nodes
      same_nodes =
          fold_until_absorbed proto_node_to_domain put_node Nodes.AddsNothing put_node-absorbed
            put_node-absorbs put_node-stays d.nodes s.nodes a.nodes

      same_edges : AllNodesConvert d → edges_after d s ≡ s.edges
      same_edges c =
          fold_until_absorbed proto_edge_to_domain put_edge Edges.AddsNothing put_edge-absorbed
            put_edge-absorbs put_edge-stays d.edges s.edges (a.edges c)

  pub merge_hypothesis-IsAbsorbed :
      (d : Proto.HypothesisDelta) (s : InnerState) → IsAbsorbed d (merge_hypothesis d s).0
  merge_hypothesis-IsAbsorbed d s = elim (merge_hypothesis_cases d s) [
    | inl (c, e) ↦ rw e (record { nodes = settled_nodes; edges = λ _. settled_edges })
    | inr (c, e) ↦ rw e (record { nodes = settled_nodes; edges = λ h. absurd (c h) })
  ]
    where
      settled_nodes : Settled proto_node_to_domain Nodes.AddsNothing d.nodes (nodes_after d s)
      settled_nodes =
          fold_until-Settled proto_node_to_domain put_node Nodes.AddsNothing put_node-absorbed
            put_node-absorbs put_node-stays d.nodes s.nodes

      settled_edges : Settled proto_edge_to_domain Edges.AddsNothing d.edges (edges_after d s)
      settled_edges =
          fold_until-Settled proto_edge_to_domain put_edge Edges.AddsNothing put_edge-absorbed
            put_edge-absorbs put_edge-stays d.edges s.edges

  -- Another delta does not undo it.
  pub merge_hypothesis-keeps_absorbed :
      (d c : Proto.HypothesisDelta) (s : InnerState)
      → IsAbsorbed d s
      → IsAbsorbed d (merge_hypothesis c s).0
  merge_hypothesis-keeps_absorbed d c s a = elim (merge_hypothesis_cases c s) [
    | inl (_, e) ↦ rw e (record { nodes = nodes_stay; edges = λ h. edges_stay (a.edges h) })
    | inr (_, e) ↦ rw e (record { nodes = nodes_stay; edges = a.edges })
  ]
    where
      nodes_stay : Settled proto_node_to_domain Nodes.AddsNothing d.nodes (nodes_after c s)
      nodes_stay =
          fold_until-keeps_any (Settled proto_node_to_domain Nodes.AddsNothing d.nodes)
            proto_node_to_domain put_node
            (λ _ e m _.
              Settled-stays proto_node_to_domain Nodes.AddsNothing (put_node e)
                (λ y n. put_node-stays y e n) d.nodes m)
            c.nodes s.nodes a.nodes

      edges_stay :
          Settled proto_edge_to_domain Edges.AddsNothing d.edges s.edges
          → Settled proto_edge_to_domain Edges.AddsNothing d.edges (edges_after c s)
      edges_stay h =
          fold_until-keeps_any (Settled proto_edge_to_domain Edges.AddsNothing d.edges)
            proto_edge_to_domain put_edge
            (λ _ e m _.
              Settled-stays proto_edge_to_domain Edges.AddsNothing (put_edge e)
                (λ y n. put_edge-stays y e n) d.edges m)
            c.edges s.edges h
