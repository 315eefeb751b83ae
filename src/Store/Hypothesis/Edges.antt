-- ===== src/Store/Hypothesis/Edges.antt =====
-- The loop over the edges of a delta, as a loop that converts and applies.
use tee.Base.{
  ◌≡◌, refl, ap, ◌∙◌, inl, inr, none, some, List, [], ◌∷◌, arith, ok, String, Result-cases,
  Option-cases,
}
use tee.Base.Fold.{fold_until}
use tee.Collections.BTreeMap.{BTreeMap, get, insert, insert_same}
use tee.Collections.BTreeMap.Laws.{get-insert_self, get-insert_ne, Key-cases}
use tee.Lattices.{Lattices}
use tee.Proto
use tee.Domain.Edge
use tee.Domain.Edge.{EdgeKey, EdgeLattice, edge_key}
use tee.Domain.Edge.Merge.{merge_again, merge_kept, merge_self}
use tee.Convert.{proto_edge_to_domain}
use tee.Convert.Facts.{proto_edge_to_domain-IsSorted}
use tee.Store.Hypothesis.{merge_edge, merge_edges, no_results, edge_id}

module _ ⦃L : Lattices⦄ where
  abbrev pub Edges : Type 0
  Edges = BTreeMap EdgeKey EdgeLattice

  -- What one edge makes of the map, whatever has been reported so far.
  abbrev pub put_edge : EdgeKey × EdgeLattice → Edges → Edges
  put_edge e edges = (merge_edge "" e.0 e.1 edges no_results).0

  put_edge_lem :
      (id : String) (k : EdgeKey) (l : EdgeLattice) (edges : Edges)
      (r : Proto.HypothesisMergeResult)
      → (merge_edge id k l edges r).0 ≡ put_edge (k, l) edges
  unfolding merge_edge
  put_edge_lem id k l edges r = ground arith

  -- The map that the loop leaves behind, with and without an error.
  pub merge_edges-fold :
      (es : List Proto.Edge) (edges : Edges) (r : Proto.HypothesisMergeResult)
      → (merge_edges es edges r).0 ≡ fold_until proto_edge_to_domain put_edge es edges
  unfolding merge_edges fold_until
  merge_edges-fold [] edges r = refl
  merge_edges-fold (n ∷ es) edges r = elim (Result-cases (proto_edge_to_domain n)) [
    | inl ((k, l), e) ↦
        rw (e, merge_edges, fold_until)
          (merge_edges-fold es (merge_edge (edge_id n) k l edges r).0
              (merge_edge (edge_id n) k l edges r).1
            ∙ ap (fold_until proto_edge_to_domain put_edge es)
                (put_edge_lem (edge_id n) k l edges r))
    | inr (_, e) ↦ rw (e, merge_edges, fold_until)
  ]

  pub put_edge-new :
      (k : EdgeKey) (l : EdgeLattice) (edges : Edges)
      → get edges k ≡ none
      → put_edge (k, l) edges ≡ insert edges k l
  unfolding merge_edge
  put_edge-new k l edges h = rw (h, put_edge, merge_edge)

  put_edge-merge :
      (k : EdgeKey) (l : EdgeLattice) (edges : Edges) {a : EdgeLattice}
      → get edges k ≡ some a
      → put_edge (k, l) edges ≡ insert edges k (Edge.merge a l).0
  unfolding merge_edge
  put_edge-merge k l edges h = rw (h, put_edge, merge_edge)

  -- What is stored under the key of an edge, before and after: the case rule of the proofs below.
  pub put_edge_cases {ℓ} :
      (P : Edges → Type ℓ) (k : EdgeKey) (l : EdgeLattice) (edges : Edges)
      → (get edges k ≡ none → P (insert edges k l))
      → ((a : EdgeLattice) → get edges k ≡ some a → P (insert edges k (Edge.merge a l).0))
      → P (put_edge (k, l) edges)
  put_edge_cases P k l edges created merged = elim (Option-cases (get edges k)) [
    | inl h ↦ rw (put_edge-new k l edges h) (created h)
    | inr (a, h) ↦ rw (put_edge-merge k l edges h) (merged a h)
  ]

  -- An edge adds nothing: it is part of the one that is stored.
  abbrev pub AddsNothing : EdgeKey × EdgeLattice → Edges → Type 0
  AddsNothing e edges = (a : EdgeLattice) × (get edges e.0 ≡ some a) × ((Edge.merge a e.1).0 ≡ a)

  pub put_edge-absorbed :
      (e : EdgeKey × EdgeLattice) (edges : Edges) → AddsNothing e edges → put_edge e edges ≡ edges
  put_edge-absorbed (k, l) edges (a, h, m) =
      put_edge-merge k l edges h ∙ rw m (insert_same edges k a h)

  pub put_edge-absorbs :
      (edge : Proto.Edge) (e : EdgeKey × EdgeLattice) (edges : Edges)
      → proto_edge_to_domain edge ≡ ok e
      → AddsNothing e (put_edge e edges)
  put_edge-absorbs edge (k, l) edges conv =
      put_edge_cases (AddsNothing (k, l)) k l edges
        (λ h.
          (l, get-insert_self edges k l, merge_self l (proto_edge_to_domain-IsSorted edge conv)))
        (λ a h. ((Edge.merge a l).0, get-insert_self edges k _, merge_again a l))

  pub put_edge-stays :
      (e f : EdgeKey × EdgeLattice) (edges : Edges)
      → AddsNothing e edges
      → AddsNothing e (put_edge f edges)
  put_edge-stays (i, l) (j, k) edges (a, h, s) = elim (Key-cases i j) [
    | inl same ↦
        put_edge_cases (AddsNothing (i, l)) j k edges
          (λ n. absurd (ground (arith, ap (get edges) same)))
          (λ b g.
            let eq : b ≡ a = ground (arith, ap (get edges) same) in
            ((Edge.merge b k).0, rw same (get-insert_self edges j _), rw eq (merge_kept a l k s)))
    | inr other ↦
        put_edge_cases (AddsNothing (i, l)) j k edges
          (λ n. (a, get-insert_ne edges j k i other ∙ h, s))
          (λ b g. (a, get-insert_ne edges j _ i other ∙ h, s))
  ]
