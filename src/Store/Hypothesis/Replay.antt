-- ===== src/Store/Hypothesis/Replay.antt =====
-- `merge_hypothesis` of store/memory.rs, called again with the same delta.
use tee.Base.{
  ◌≡◌, refl, ap, ◌∙◌, ◌⊎◌, inl, inr, Option, none, some, List, [], ◌∷◌, arith, Result, ok, err,
  Result-cases,
}
use tee.Base.Fold.{fold_until_twice}
use tee.Lattices.{Lattices}
use tee.Proto
use tee.Convert.{proto_node_to_domain, proto_edge_to_domain, show_conversion_error, ConversionError}
use tee.Store.State.{StoreError, backend, InnerState}
use tee.Store.Hypothesis.{
  merge_edge, edge_id, merge_node, merge_nodes, merge_edges, merge_hypothesis, no_results,
}
use tee.Store.Hypothesis.Nodes.{
  Nodes, put_node, merge_nodes-fold, put_node-absorbed, put_node-absorbs, put_node-stays,
}
use tee.Store.Hypothesis.Edges.{
  Edges, put_edge, merge_edges-fold, put_edge-absorbed, put_edge-absorbs, put_edge-stays,
}

-- The first element that does not convert.
abbrev pub first_error {ℓ} :
    {X Y : Type ℓ} → (X → Result Y ConversionError) → List X → Option ConversionError
first_error convert [] = none
first_error convert (x ∷ xs) = elim (convert x) [ err e ↦ some e | ok _ ↦ first_error convert xs ]

module _ ⦃L : Lattices⦄ where
  -- What the loop over the nodes returns depends on the delta only, as far as it is an error.
  pub merge_nodes-error :
      (ns : List Proto.Node) (nodes : Nodes) (r : Proto.HypothesisMergeResult)
      → ((e : ConversionError) × (first_error proto_node_to_domain ns ≡ some e)
          × ((merge_nodes ns nodes r).1 ≡ err (backend (show_conversion_error e))))
        ⊎ ((r' : Proto.HypothesisMergeResult) × (first_error proto_node_to_domain ns ≡ none)
            × ((merge_nodes ns nodes r).1 ≡ ok r'))
  unfolding merge_nodes
  merge_nodes-error [] nodes r = inr (r, refl, refl)
  merge_nodes-error (n ∷ ns) nodes r = elim (Result-cases (proto_node_to_domain n)) [
    | inl ((id, l), e) ↦
        rw (e, merge_nodes, first_error)
          (merge_nodes-error ns (merge_node id l nodes r).0 (merge_node id l nodes r).1)
    | inr (f, e) ↦ inl (f, rw (e, first_error), rw (e, merge_nodes))
  ]

  -- The same of the loop over the edges.
  pub merge_edges-error :
      (es : List Proto.Edge) (edges : Edges) (r : Proto.HypothesisMergeResult)
      → ((e : ConversionError) × (first_error proto_edge_to_domain es ≡ some e)
          × ((merge_edges es edges r).1 ≡ err (backend (show_conversion_error e))))
        ⊎ ((r' : Proto.HypothesisMergeResult) × (first_error proto_edge_to_domain es ≡ none)
            × ((merge_edges es edges r).1 ≡ ok r'))
  unfolding merge_edges
  merge_edges-error [] edges r = inr (r, refl, refl)
  merge_edges-error (n ∷ es) edges r = elim (Result-cases (proto_edge_to_domain n)) [
    | inl ((k, l), e) ↦
        let next = merge_edge (edge_id n) k l edges r in
        rw (e, merge_edges, first_error) (merge_edges-error es next.0 next.1)
    | inr (f, e) ↦ inl (f, rw (e, first_error), rw (e, merge_edges))
  ]

  merge_nodes_twice :
      (ns : List Proto.Node) (nodes : Nodes) (r r' : Proto.HypothesisMergeResult)
      → (merge_nodes ns (merge_nodes ns nodes r).0 r').0 ≡ (merge_nodes ns nodes r).0
  merge_nodes_twice ns nodes r r' = rw (merge_nodes-fold ns nodes r) (
      merge_nodes-fold ns _ r'
      ∙ fold_until_twice proto_node_to_domain put_node _ put_node-absorbed put_node-absorbs
          put_node-stays ns nodes)

  merge_edges_twice :
      (es : List Proto.Edge) (edges : Edges) (r r' : Proto.HypothesisMergeResult)
      → (merge_edges es (merge_edges es edges r).0 r').0 ≡ (merge_edges es edges r).0
  merge_edges_twice es edges r r' = rw (merge_edges-fold es edges r) (
      merge_edges-fold es _ r'
      ∙ fold_until_twice proto_edge_to_domain put_edge _ put_edge-absorbed put_edge-absorbs
          put_edge-stays es edges)

  -- What `merge_hypothesis` leaves behind, by whether the nodes convert.
  pub merge_hypothesis-failed :
      (d : Proto.HypothesisDelta) (s : InnerState) {e : StoreError}
      → (merge_nodes d.nodes s.nodes no_results).1 ≡ err e
      → merge_hypothesis d s
        ≡ (record s { nodes = (merge_nodes d.nodes s.nodes no_results).0 }, err e)
  unfolding merge_hypothesis
  merge_hypothesis-failed d s h = rw (h, merge_hypothesis)

  pub merge_hypothesis-merged :
      (d : Proto.HypothesisDelta) (s : InnerState) {r : Proto.HypothesisMergeResult}
      → (merge_nodes d.nodes s.nodes no_results).1 ≡ ok r
      → merge_hypothesis d s ≡ (
        record s {
          nodes = (merge_nodes d.nodes s.nodes no_results).0;
          edges = (merge_edges d.edges s.edges r).0;
        },
        (merge_edges d.edges s.edges r).1,
      )
  unfolding merge_hypothesis
  merge_hypothesis-merged d s h = rw (h, merge_hypothesis)

  -- A second run over the nodes ends as the first did.
  merge_nodes-error_again :
      (ns : List Proto.Node) (nodes nodes' : Nodes) (r r' : Proto.HypothesisMergeResult)
      → {e : StoreError} → (merge_nodes ns nodes r).1 ≡ err e
      → (merge_nodes ns nodes' r').1 ≡ err e
  merge_nodes-error_again ns nodes nodes' r r' h =
      ground (arith, merge_nodes-error ns nodes r, merge_nodes-error ns nodes' r')

  merge_nodes-ok_again :
      (ns : List Proto.Node) (nodes nodes' : Nodes) (r r' : Proto.HypothesisMergeResult)
      → {q : Proto.HypothesisMergeResult} → (merge_nodes ns nodes r).1 ≡ ok q
      → (q' : Proto.HypothesisMergeResult) × ((merge_nodes ns nodes' r').1 ≡ ok q')
  merge_nodes-ok_again ns nodes nodes' r r' h = elim (merge_nodes-error ns nodes' r') [
    | inl (e, f, g) ↦ absurd (ground (arith, merge_nodes-error ns nodes r))
    | inr (q', f, g) ↦ (q', g)
  ]

  -- Sending a delta a second time leaves the state as the first time left it, also where some of
  -- its nodes were refused for a conflict, and where a run ended with an error.
  merge_hypothesis_twice :
      (d : Proto.HypothesisDelta) (s : InnerState)
      → (merge_hypothesis d (merge_hypothesis d s).0).0 ≡ (merge_hypothesis d s).0
  merge_hypothesis_twice d s = elim (Result-cases (merge_nodes d.nodes s.nodes no_results).1) [
    | inr (e, h) ↦ rw (merge_hypothesis-failed d s h) (
        ap (λ o. o.0)
          (merge_hypothesis-failed d (record s { nodes = after })
            (merge_nodes-error_again d.nodes s.nodes after no_results no_results h))
        ∙ λ i. record s { nodes = again i })
    | inl (r, h) ↦
        let (q, k) = merge_nodes-ok_again d.nodes s.nodes after no_results no_results h in
        rw (merge_hypothesis-merged d s h) (
          ap (λ o. o.0)
            (merge_hypothesis-merged d
              (record s { nodes = after; edges = (merge_edges d.edges s.edges r).0 }) k)
          ∙ λ i. record s { nodes = again i; edges = merge_edges_twice d.edges s.edges r q i })
  ]
    where
      after : Nodes
      after = (merge_nodes d.nodes s.nodes no_results).0

      again : (merge_nodes d.nodes after no_results).0 ≡ after
      again = merge_nodes_twice d.nodes s.nodes no_results no_results
