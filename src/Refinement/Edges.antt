-- ===== src/Refinement/Edges.antt =====
-- The loop of `merge_hypothesis` over the edges, against that of the reference store.
use mathlib.Core.Option
use tee.Base.{
  ◌≡◌, refl, ap, ◌∙◌, inl, inr, Option, some, List, [], ◌∷◌, map, ok, err, push, Result-cases,
  Option-cases,
}
use tee.Collections.BTreeSet.{from_iter}
use tee.Collections.BTreeSet.Laws.{from_iter-IsSorted}
use tee.Collections.BTreeMap.{get}
use tee.Lattices.{Lattices}
use tee.Proto
use tee.Domain.Types.{EdgeType}
use tee.Domain.Provenance.{provenance_ord}
use tee.Domain.Edge
use tee.Domain.Edge.{EdgeKey, EdgeLattice, new_key, edge_key}
use tee.Domain.Edge.Merge.{entries-new, entries-merge}
use tee.Convert.{ConversionError, edge_type_try_from, proto_edge_to_domain, provenance_from_proto}
use tee.Store.Hypothesis.{merge_edge, merge_edges, edge_id}
use tee.Store.Hypothesis.Edges.{Edges}
use tee.Reference.{Events, set, events_of, append}
use tee.Reference.Hypothesis as Reference
use tee.Reference.Hypothesis.{append_at, report_edge}
use tee.Refinement.{events, view_edges}
use tee.Refinement.Maps.{view-insert}
use tee.Refinement.Proven.{events-extend, events-from_iter}

module _ ⦃L : Lattices⦄ where
  -- The lattice of a message.
  abbrev pub lattice : Proto.Edge → EdgeLattice
  lattice e = Edge.new (from_iter (map provenance_from_proto e.provenance))

  abbrev seen : Option EdgeLattice → Option Events
  seen = Option.map (λ l. events (L.set_reveal l.provenance))

  seen-new : (e : Proto.Edge) → seen (some (lattice e)) ≡ some (events_of e.provenance)
  seen-new e =
      ap (λ s. some (events s)) (entries-new _) ∙ ap (λ s. some s) (events-from_iter e.provenance)

  seen-merge :
      (a : EdgeLattice) (e : Proto.Edge)
      → seen (some (Edge.merge a (lattice e)).0)
        ≡ some (append (events (L.set_reveal a.provenance)) (events_of e.provenance))
  seen-merge a e =
      let ps = from_iter (map provenance_from_proto e.provenance) in
      ap (λ s. some (events s)) (entries-merge a (lattice e))
      ∙ rw (
        entries-new ps,
        events-extend (L.set_reveal a.provenance) ps
            (from_iter-IsSorted (map provenance_from_proto e.provenance)),
        events-from_iter e.provenance,
      )

  -- One edge: the map and the report.
  merge_edge-refines :
      (e : Proto.Edge) (k : EdgeKey) (m : Edges) (r : Proto.HypothesisMergeResult)
      → ◌≡◌ {A = (EdgeKey → Option Events) × Proto.HypothesisMergeResult}
          (
            view_edges (merge_edge (edge_id e) k (lattice e) m r).0,
            (merge_edge (edge_id e) k (lattice e) m r).1,
          )
          (
            set (view_edges m) k (append_at (view_edges m k) (events_of e.provenance)),
            report_edge (edge_id e) (view_edges m k) r,
          )
  unfolding merge_edge
  merge_edge-refines e k m r = elim (Option-cases (get m k)) [
    | inl h ↦
        rw (h, merge_edge)
          (λ i. (
            view-insert seen m k (lattice e) (seen-new e) i,
            record r { created_ids = push r.created_ids (edge_id e) },
          ))
    | inr (a, h) ↦
        rw (h, merge_edge)
          (λ i. (
            view-insert seen m k (Edge.merge a (lattice e)).0 (seen-merge a e) i,
            record r { merged_ids = push r.merged_ids (edge_id e) },
          ))
  ]

  proto_edge_to_domain-ok :
      (e : Proto.Edge) (t : EdgeType)
      → edge_type_try_from e.type ≡ ok t
      → proto_edge_to_domain e ≡ ok (new_key e.source e.target t, lattice e)
  unfolding proto_edge_to_domain
  proto_edge_to_domain-ok e t h = rw h

  proto_edge_to_domain-err :
      (e : Proto.Edge) {f : ConversionError}
      → edge_type_try_from e.type ≡ err f
      → proto_edge_to_domain e ≡ err f
  unfolding proto_edge_to_domain
  proto_edge_to_domain-err e h = rw h

  -- The loop leaves the map and gives the result that the reference store does.
  pub merge_edges-refines :
      (es : List Proto.Edge) (m : Edges) (r : Proto.HypothesisMergeResult)
      → (view_edges (merge_edges es m r).0, (merge_edges es m r).1)
        ≡ Reference.merge_edges es (view_edges m) r
  unfolding merge_edges Reference.merge_edges
  merge_edges-refines [] m r = refl
  merge_edges-refines (e ∷ es) m r = elim (Result-cases (edge_type_try_from e.type)) [
    | inl (t, h) ↦
        let k = new_key e.source e.target t in
        let next = merge_edge (edge_id e) k (lattice e) m r in
        let step = merge_edge-refines e k m r in
        rw (proto_edge_to_domain-ok e t h, merge_edges, Reference.merge_edges, h)
          (merge_edges-refines es next.0 next.1 ∙ λ i.
            Reference.merge_edges es (step i).0 (step i).1)
    | inr (f, h) ↦ rw (proto_edge_to_domain-err e h, merge_edges, Reference.merge_edges, h)
  ]
