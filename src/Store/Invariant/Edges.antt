-- ===== src/Store/Invariant/Edges.antt =====
-- The loop over the edges of a delta, and the invariant of the edges.
use tee.Base.{◌≡◌, sym, ap, ◌∙◌, List, All, ok}
use tee.Base.Fold.{fold_until-keeps}
use tee.Collections.BTreeMap
use tee.Collections.BTreeMap.Laws.{All-insert, get-All, insert-IsSorted}
use tee.Lattices.{Lattices}
use tee.Proto
use tee.Validation.Spec
use tee.Domain.Provenance.{provenance_ord}
use tee.Domain.Edge
use tee.Domain.Edge.{EdgeKey, EdgeLattice, edge_key}
use tee.Domain.Edge.Merge.{entries, entries-new, entries-merge}
use tee.Convert.{proto_edge_to_domain}
use tee.Convert.Facts.{proto_edge_to_domain-parts}
use tee.Store.Hypothesis.{merge_edges}
use tee.Store.Hypothesis.Edges.{Edges, put_edge, put_edge_cases, merge_edges-fold}
use tee.Store.Invariant.{IsValidEdge}
use tee.Store.Invariant.Proven.{collected-IsProven, extend-IsProven}

module _ ⦃L : Lattices⦄ where
  -- A valid message converts to a valid entry.
  converted-IsValidEdge :
      (edge : Proto.Edge) (e : EdgeKey × EdgeLattice)
      → Spec.IsValidEdge edge
      → proto_edge_to_domain edge ≡ ok e
      → IsValidEdge e
  unfolding Edge.new_key
  converted-IsValidEdge edge (k, n) v h =
      let (t, _, key, e) = proto_edge_to_domain-parts edge h in
      let source : k.source ≡ edge.source = ap (λ j. j.source) key in
      let target : k.target ≡ edge.target = ap (λ j. j.target) key in
      record {
        source = λ z. v.source (sym source ∙ z);
        target = λ z. v.target (sym target ∙ z);
        no_loop = λ z. v.no_loop (sym source ∙ z ∙ target);
        proven =
            rw (ap entries e ∙ entries-new _)
              (collected-IsProven edge.provenance v.entries v.provenance);
      }

  merged-IsValidEdge :
      (k : EdgeKey) (a b : EdgeLattice)
      → IsValidEdge (k, a)
      → IsValidEdge (k, b)
      → IsValidEdge (k, (Edge.merge a b).0)
  merged-IsValidEdge k a b va vb = record {
    source = va.source;
    target = va.target;
    no_loop = va.no_loop;
    proven = rw (entries-merge a b) (extend-IsProven _ _ va.proven vb.proven);
  }

  abbrev ValidEdges : Edges → Type 0
  ValidEdges edges = BTreeMap.IsSorted edges × All IsValidEdge edges

  put_edge-IsValid :
      (e : EdgeKey × EdgeLattice) (edges : Edges)
      → IsValidEdge e
      → ValidEdges edges
      → ValidEdges (put_edge e edges)
  put_edge-IsValid (k, l) edges v (s, h) =
      put_edge_cases ValidEdges k l edges
        (λ _. (insert-IsSorted edges k l s, All-insert IsValidEdge edges k l v h))
        (λ a g. (
          insert-IsSorted edges k _ s,
          All-insert IsValidEdge edges k _
              (merged-IsValidEdge k a l (get-All IsValidEdge edges k a h g) v) h,
        ))

  pub merge_edges-IsValid :
      (es : List Proto.Edge) (edges : Edges) (r : Proto.HypothesisMergeResult)
      → All Spec.IsValidEdge es
      → BTreeMap.IsSorted edges × All IsValidEdge edges
      → BTreeMap.IsSorted (merge_edges es edges r).0 × All IsValidEdge (merge_edges es edges r).0
  merge_edges-IsValid es edges r q h = rw (merge_edges-fold es edges r) (
      fold_until-keeps Spec.IsValidEdge ValidEdges proto_edge_to_domain put_edge
        (λ edge e m v c. put_edge-IsValid e m (converted-IsValidEdge edge e v c)) es edges q h)
