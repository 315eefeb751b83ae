-- ===== src/Convert/Facts.antt =====
-- proto_convert.rs: inversions of a successful conversion, and the ways there and back.
use mathlib.Core.List.{map}
use tee.Base.{
  ◌↔◌, ℤ, pos, ◌≡◌, refl, ap, sym, ◌∙◌, inl, inr, String, some, List, [], ◌∷◌, arith, ok,
  Result-cases,
}
use tee.Base.Int.{int_eq_iff}
use tee.Collections.BTreeSet.{BTreeSet, from_iter, IsSorted}
use tee.Collections.BTreeSet.Laws.{from_iter-IsSorted}
use tee.Collections.BTreeSet.Elements.{from_iter_sorted}
use tee.Lattices.{Lattices}
use tee.Proto
use tee.Domain.Types.{NodeType, EdgeType}
use tee.Domain.Provenance.{Provenance, provenance_ord}
use tee.Domain.Node
use tee.Domain.Node.{NodeLattice}
use tee.Domain.Node.Merge.{reveal_ext, reveal-new}
use tee.Domain.Edge
use tee.Domain.Edge.{EdgeKey, EdgeLattice}
use tee.Domain.Edge.Merge.{entries_ext, entries-new}
use tee.Convert.{
  node_type_try_from, i32_from_node_type, edge_type_try_from, i32_from_edge_type,
  provenance_from_proto, provenance_to_proto, proto_node_to_domain, domain_node_to_proto,
  proto_edge_to_domain, domain_edge_to_proto,
}

-- A node type survives the way to its number and back, and a number that converts is that of the
-- type it converts to.
pub node_type_round_trip :
    (t : NodeType) (value : ℤ)
    → (node_type_try_from (i32_from_node_type t) ≡ ok t)
      × (node_type_try_from value ≡ ok t → i32_from_node_type t ≡ value)
unfolding node_type_try_from i32_from_node_type
node_type_round_trip t value =
    (ground arith, λ h. ground (arith, int_eq_iff value (i32_from_node_type t)))

-- The same for the edge types.
pub edge_type_round_trip :
    (t : EdgeType) (value : ℤ)
    → (edge_type_try_from (i32_from_edge_type t) ≡ ok t)
      × (edge_type_try_from value ≡ ok t → i32_from_edge_type t ≡ value)
unfolding edge_type_try_from i32_from_edge_type
edge_type_round_trip t value =
    (ground arith, λ h. ground (arith, int_eq_iff value (i32_from_edge_type t)))

-- A number converts to a node type exactly where it is the number of that type, and to an edge
-- type exactly where it is the number of that.
type_try_from-ok :
    (value : ℤ) (n : NodeType) (e : EdgeType)
    → ((node_type_try_from value ≡ ok n) ↔ (i32_from_node_type n ≡ value))
      × ((edge_type_try_from value ≡ ok e) ↔ (i32_from_edge_type e ≡ value))
type_try_from-ok value n e = (
  ((node_type_round_trip n value).1, λ h. rw (← h) (node_type_round_trip n value).0),
  ((edge_type_round_trip e value).1, λ h. rw (← h) (edge_type_round_trip e value).0),
)

provenance_back :
    (ps : List Provenance) → map provenance_from_proto (map provenance_to_proto ps) ≡ ps
unfolding provenance_from_proto provenance_to_proto
provenance_back [] = refl
provenance_back (p ∷ ps) = ap (◌∷◌ p) (provenance_back ps)

pub collected :
    (ps : BTreeSet Provenance)
    → IsSorted ps
    → from_iter (map provenance_from_proto (map provenance_to_proto ps)) ≡ ps
collected ps h = rw (provenance_back ps) (from_iter_sorted ps h)

module _ ⦃L : Lattices⦄ where
  -- A node without a conflict, whose provenance is in order, survives the way to a message and back.
  pub node_round_trip :
      (id : String) (n : NodeLattice) {t : NodeType} {l : String}
      → L.conflict_reveal n.node_type ≡ some t
      → L.conflict_reveal n.label ≡ some l
      → IsSorted (L.set_reveal n.provenance)
      → proto_node_to_domain (domain_node_to_proto id n) ≡ ok (id, n)
  unfolding proto_node_to_domain domain_node_to_proto
  node_round_trip id n {t} {l} ht hl hp =
      rw (ht, hl, (node_type_round_trip t (pos 0)).0, collected _ hp)
        (ap (λ x. ok (id, x)) (rebuilt))
    where
      rebuilt : Node.new t l (L.min_reveal n.hypothetical) (L.set_reveal n.provenance) ≡ n
      rebuilt = reveal_ext _ _ (
          reveal-new t l (L.min_reveal n.hypothetical) (L.set_reveal n.provenance) ∙ λ i. record {
            node_type = sym ht i;
            label = sym hl i;
            hypothetical = L.min_reveal n.hypothetical;
            provenance = L.set_reveal n.provenance;
          })

  -- An edge whose provenance is in order survives the way to a message and back, with its key.
  pub edge_round_trip :
      (k : EdgeKey) (e : EdgeLattice)
      → IsSorted (L.set_reveal e.provenance)
      → proto_edge_to_domain (domain_edge_to_proto k e) ≡ ok (k, e)
  unfolding proto_edge_to_domain domain_edge_to_proto
  edge_round_trip k e h =
      rw ((edge_type_round_trip k.edge_type (pos 0)).0, collected _ h)
        (λ i. ok (key i, entries_ext _ e (entries-new (L.set_reveal e.provenance)) i))
    where
      key : Edge.new_key k.source k.target k.edge_type ≡ k
      key = unfold Edge.new_key in refl

  -- The parts of a converted node.
  pub proto_node_to_domain-parts :
      (node : Proto.Node) {id : String} {n : NodeLattice}
      → proto_node_to_domain node ≡ ok (id, n)
      → (t : NodeType) × (node_type_try_from node.type ≡ ok t)
        × (id ≡ node.id)
        × (n
            ≡ Node.new t node.label node.hypothetical
                (from_iter (map provenance_from_proto node.provenance)))
  unfolding proto_node_to_domain
  proto_node_to_domain-parts node h = elim (Result-cases (node_type_try_from node.type)) [
    | inl (t, e) ↦ (t, e, ground arith, ground arith)
    | inr (f, e) ↦ absurd (ground arith)
  ]

  -- The parts of a converted edge.
  pub proto_edge_to_domain-parts :
      (edge : Proto.Edge) {k : EdgeKey} {e : EdgeLattice}
      → proto_edge_to_domain edge ≡ ok (k, e)
      → (t : EdgeType) × (edge_type_try_from edge.type ≡ ok t)
        × (k ≡ Edge.new_key edge.source edge.target t)
        × (e ≡ Edge.new (from_iter (map provenance_from_proto edge.provenance)))
  unfolding proto_edge_to_domain
  proto_edge_to_domain-parts edge h = elim (Result-cases (edge_type_try_from edge.type)) [
    | inl (t, e) ↦ (t, e, ground arith, ground arith)
    | inr (f, e) ↦ absurd (ground arith)
  ]

  -- The provenance of a converted node or edge is in order.
  pub proto_node_to_domain-IsSorted :
      (node : Proto.Node) {id : String} {n : NodeLattice}
      → proto_node_to_domain node ≡ ok (id, n)
      → IsSorted (L.set_reveal n.provenance)
  proto_node_to_domain-IsSorted node h =
      let (t, _, _, e) = proto_node_to_domain-parts node h in
      rw
        (
          e,
          ap (λ r. r.provenance)
              (reveal-new t node.label node.hypothetical
                (from_iter (map provenance_from_proto node.provenance))),
        )
        (from_iter-IsSorted _)

  pub proto_edge_to_domain-IsSorted :
      (edge : Proto.Edge) {k : EdgeKey} {e : EdgeLattice}
      → proto_edge_to_domain edge ≡ ok (k, e)
      → IsSorted (L.set_reveal e.provenance)
  proto_edge_to_domain-IsSorted edge h =
      let (_, _, _, e) = proto_edge_to_domain-parts edge h in
      rw (e, entries-new (from_iter (map provenance_from_proto edge.provenance)))
        (from_iter-IsSorted _)
