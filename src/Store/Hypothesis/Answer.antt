-- ===== src/Store/Hypothesis/Answer.antt =====
-- `merge_hypothesis` of store/memory.rs: its end at a node that does not convert.
use tee.Base.{◌≡◌, refl, ap, ◌∙◌, String, List, [], ◌∷◌, ◌++◌, ok, err, All, sym, string_key}
use tee.Lattices.{Lattices}
use tee.Proto
use tee.Domain.Node.{NodeLattice}
use tee.Domain.Edge.{edge_key}
use tee.Convert.{ConversionError, show_conversion_error, proto_node_to_domain}
use tee.Store.State.{InnerState, backend}
use tee.Store.Hypothesis.{merge_node, merge_nodes, merge_edges, merge_hypothesis, no_results}
use tee.Store.Hypothesis.Nodes.{Nodes}
use tee.Store.Hypothesis.Replay.{merge_hypothesis-failed, merge_hypothesis-merged}

module _ ⦃L : Lattices⦄ where
  -- The node converts.
  abbrev pub Converts : Proto.Node → Type 0
  Converts n = (e : String × NodeLattice) × (proto_node_to_domain n ≡ ok e)

  merge_nodes-append :
      (ns ms : List Proto.Node) (nodes : Nodes) (r : Proto.HypothesisMergeResult)
      → All Converts ns
      → (q : Proto.HypothesisMergeResult) × ((merge_nodes ns nodes r).1 ≡ ok q)
        × (merge_nodes (ns ++ ms) nodes r ≡ merge_nodes ms (merge_nodes ns nodes r).0 q)
  unfolding merge_nodes
  merge_nodes-append [] ms nodes r h = (r, refl, refl)
  merge_nodes-append (n ∷ ns) ms nodes r ((e, c), h) =
      let next = merge_node e.0 e.1 nodes r in
      let (q, a, b) = merge_nodes-append ns ms next.0 next.1 h in
      (q, rw (c, merge_nodes) a, rw (c, merge_nodes) b)

  -- A node whose type does not convert ends the call with that error. What the nodes before it
  -- have made of the store stays, and the nodes after it and the edges are not merged.
  pub merge_hypothesis_cut :
      (before : List Proto.Node) (bad : Proto.Node) (after : List Proto.Node)
      (edges : List Proto.Edge) (s : InnerState) (e : ConversionError)
      → All Converts before
      → proto_node_to_domain bad ≡ err e
      → merge_hypothesis (record { nodes = before ++ (bad ∷ after); edges = edges }) s ≡ (
        (merge_hypothesis (record { nodes = before; edges = [] }) s).0,
        err (backend (show_conversion_error e)),
      )
  unfolding merge_nodes merge_edges
  merge_hypothesis_cut before bad after edges s e h k =
      let (q, a, b) = merge_nodes-append before (bad ∷ after) s.nodes no_results h in
      let stop : merge_nodes (before ++ (bad ∷ after)) s.nodes no_results
          ≡ ((merge_nodes before s.nodes no_results).0, err (backend (show_conversion_error e))) =
        b ∙ rw (merge_nodes, k) in
      merge_hypothesis-failed (record { nodes = before ++ (bad ∷ after); edges = edges }) s
        (ap (λ o. o.1) stop)
      ∙ (λ i. (record s { nodes = (stop i).0 }, err (backend (show_conversion_error e))))
      ∙ sym (
          ap (λ o. (o.0, err (backend (show_conversion_error e))))
            (merge_hypothesis-merged (record { nodes = before; edges = [] }) s a))
