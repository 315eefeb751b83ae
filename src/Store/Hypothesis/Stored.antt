-- ===== src/Store/Hypothesis/Stored.antt =====
-- `merge_hypothesis` of store/memory.rs: what the store has of the delta after it.
use tee.Base.{
  ◌≡◌, ap, inl, inr, String, none, List, [], ◌∷◌, arith, Result, ok, All, Result-cases, string_key,
}
use tee.Base.Fold.{Settled, fold_until-Settled}
use tee.Lattices.{Lattices}
use tee.Proto
use tee.Domain.Node.{NodeLattice}
use tee.Domain.Edge.{EdgeKey, EdgeLattice, edge_key}
use tee.Convert.{ConversionError, proto_node_to_domain, proto_edge_to_domain}
use tee.Store.State.{InnerState}
use tee.Store.Hypothesis.{merge_nodes, merge_edges, merge_hypothesis, no_results}
use tee.Store.Hypothesis.Nodes.{
  Nodes, put_node, merge_nodes-fold, put_node-absorbed, put_node-absorbs, put_node-stays,
}
use tee.Store.Hypothesis.Nodes
use tee.Store.Hypothesis.Edges.{
  Edges, put_edge, merge_edges-fold, put_edge-absorbed, put_edge-absorbs, put_edge-stays,
}
use tee.Store.Hypothesis.Edges
use tee.Store.Hypothesis.Replay.{
  first_error, merge_nodes-error, merge_edges-error, merge_hypothesis-failed,
  merge_hypothesis-merged,
}

-- Where every element converts, each is settled.
Settled-All :
    {X Y S : Type 0} (convert : X → Result Y ConversionError) (P : Y → S → Type 0) (xs : List X)
    (s : S)
    → first_error convert xs ≡ none
    → Settled convert P xs s
    → All (λ x. (y : Y) × (convert x ≡ ok y) × P y s) xs
unfolding Settled
Settled-All convert P [] s h k = tt
Settled-All convert P (x ∷ xs) s h k = elim (Result-cases (convert x)) [
  | inl (y, e) ↦
      let k' = rw (e, Settled) at k in
      ((y, e, k'.0), Settled-All convert P xs s (rw (e, first_error) at h) k'.1)
  | inr (f, e) ↦ absurd (ground arith)
]

module _ ⦃L : Lattices⦄ where
  -- A node of a message is stored under its id: what is stored there is in conflict with it, or has
  -- all of it, as the merge of the two shows.
  abbrev pub IsStoredNode : InnerState → Proto.Node → Type 0
  IsStoredNode s n =
      (e : String × NodeLattice) × (proto_node_to_domain n ≡ ok e) × Nodes.AddsNothing e s.nodes

  -- An edge of a message is stored under its key, and what is stored there has all of it.
  abbrev pub IsStoredEdge : InnerState → Proto.Edge → Type 0
  IsStoredEdge s edge =
      (e : EdgeKey × EdgeLattice) × (proto_edge_to_domain edge ≡ ok e) × Edges.AddsNothing e s.edges

  merge_nodes-stored :
      (ns : List Proto.Node) (m : Nodes) (r : Proto.HypothesisMergeResult)
      {r' : Proto.HypothesisMergeResult}
      → (merge_nodes ns m r).1 ≡ ok r'
      → All
          (λ n.
            (e : String × NodeLattice) × (proto_node_to_domain n ≡ ok e)
            × Nodes.AddsNothing e (merge_nodes ns m r).0)
          ns
  merge_nodes-stored ns m r h = elim (merge_nodes-error ns m r) [
    | inl (e, f, g) ↦ absurd (ground arith)
    | inr (q, f, g) ↦ Settled-All proto_node_to_domain Nodes.AddsNothing ns _ f (
        rw (merge_nodes-fold ns m r) (
          fold_until-Settled proto_node_to_domain put_node Nodes.AddsNothing put_node-absorbed
            put_node-absorbs put_node-stays ns m))
  ]

  merge_edges-stored :
      (es : List Proto.Edge) (m : Edges) (r : Proto.HypothesisMergeResult)
      {r' : Proto.HypothesisMergeResult}
      → (merge_edges es m r).1 ≡ ok r'
      → All
          (λ n.
            (e : EdgeKey × EdgeLattice) × (proto_edge_to_domain n ≡ ok e)
            × Edges.AddsNothing e (merge_edges es m r).0)
          es
  merge_edges-stored es m r h = elim (merge_edges-error es m r) [
    | inl (e, f, g) ↦ absurd (ground arith)
    | inr (q, f, g) ↦ Settled-All proto_edge_to_domain Edges.AddsNothing es _ f (
        rw (merge_edges-fold es m r) (
          fold_until-Settled proto_edge_to_domain put_edge Edges.AddsNothing put_edge-absorbed
            put_edge-absorbs put_edge-stays es m))
  ]

  -- Where a delta is merged, each of its nodes is stored under its id, unless it is in conflict with
  -- what is stored there, and each of its edges is stored under its key: merging it with what is
  -- stored changes that no more.
  pub merge_hypothesis-stored :
      (d : Proto.HypothesisDelta) (s : InnerState) (r : Proto.HypothesisMergeResult)
      → (merge_hypothesis d s).1 ≡ ok r
      → All (IsStoredNode (merge_hypothesis d s).0) d.nodes
        × All (IsStoredEdge (merge_hypothesis d s).0) d.edges
  merge_hypothesis-stored d s r h = elim (Result-cases (merge_nodes d.nodes s.nodes no_results).1) [
    | inr (e, k) ↦ absurd (ground (arith, ap (λ o. o.1) (merge_hypothesis-failed d s k)))
    | inl (q, k) ↦
        let out = merge_hypothesis-merged d s k in
        rw out (
          merge_nodes-stored d.nodes s.nodes no_results k,
          merge_edges-stored d.edges s.edges q (rw (ap (λ o. o.1) out) at h),
        )
  ]
