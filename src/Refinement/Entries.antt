-- ===== src/Refinement/Entries.antt =====
-- A node as the store keeps it, against an entry of the reference graph.
use tee.Base.{
  ◌≡◌, refl, ap, sym, ◌∙◌, inl, inr, ◌&&◌, String, Option, some, map, arith, All, string_eq,
  string_key,
}
use tee.Collections.BTreeSet.{from_iter}
use tee.Collections.BTreeSet.Laws.{from_iter-IsSorted}
use tee.Collections.BTreeMap.{get, insert}
use tee.Collections.BTreeMap.Laws.{get-insert_self, get-insert_ne, Key-cases, get-All}
use tee.Lattices.{Lattices}
use tee.Proto
use tee.Domain.Types.{NodeType, node_type_eq}
use tee.Domain.Provenance.{provenance_ord}
use tee.Domain.Node
use tee.Domain.Node.{NodeLattice}
use tee.Domain.Node.Merge.{reveal, reveal-merge, reveal-new, Revealed, join}
use tee.Convert.{provenance_from_proto}
use tee.Store.Hypothesis.Nodes.{Nodes}
use tee.Store.Invariant.{IsValidNode}
use tee.Reference.{Entry, append}
use tee.Reference.Hypothesis.{entry_of}
use tee.Refinement.{events, view_fields, view_node}
use tee.Refinement.Proven.{events-extend, events-from_iter}

module _ ⦃L : Lattices⦄ where
  -- Every stored node has a type and a label.
  abbrev pub IsComplete : Nodes → Type 0
  IsComplete m =
      (id : String) (a : NodeLattice)
      → get m id ≡ some a
      → (t : NodeType) × (L.conflict_reveal a.node_type ≡ some t)
        × (l : String) × (L.conflict_reveal a.label ≡ some l)

  pub IsComplete-valid : (m : Nodes) → All IsValidNode m → IsComplete m
  IsComplete-valid m h id a g =
      let v = get-All IsValidNode m id a h g in
      let (t, ht) = v.type in let (l, hl, _) = v.label in (t, ht, l, hl)

  pub IsComplete-insert :
      (m : Nodes) (id : String) (n : NodeLattice) {t : NodeType} {l : String}
      → L.conflict_reveal n.node_type ≡ some t
      → L.conflict_reveal n.label ≡ some l
      → IsComplete m
      → IsComplete (insert m id n)
  IsComplete-insert m id n {t} {l} ht hl c j a g = elim (Key-cases j id) [
    | inl same ↦
        let e : a ≡ n = ground (arith, get-insert_self m id n, ap (get (insert m id n)) same) in
        rw e (t, ht, l, hl)
    | inr other ↦ c j a (sym (get-insert_ne m id n j other) ∙ g)
  ]

  -- The lattice of a message.
  abbrev pub lattice : Proto.Node → NodeType → NodeLattice
  lattice n t =
      Node.new t n.label n.hypothetical (from_iter (map provenance_from_proto n.provenance))

  pub lattice-type :
      (n : Proto.Node) (t : NodeType) → L.conflict_reveal (lattice n t).node_type ≡ some t
  lattice-type n t = ap (λ r. r.node_type) (reveal-new t n.label n.hypothetical _)

  pub lattice-label :
      (n : Proto.Node) (t : NodeType) → L.conflict_reveal (lattice n t).label ≡ some n.label
  lattice-label n t = ap (λ r. r.label) (reveal-new t n.label n.hypothetical _)

  abbrev fields : Revealed → Option Entry
  fields r = view_fields r.node_type r.label r.hypothetical r.provenance

  pub view_node-new :
      (n : Proto.Node) (t : NodeType) → view_node (some (lattice n t)) ≡ some (entry_of n t)
  view_node-new n t =
      ap fields (reveal-new t n.label n.hypothetical _)
      ∙ ap
          (λ e.
            some (record {
              node_type = t;
              label = n.label;
              hypothetical = n.hypothetical;
              events = e;
            }))
          (events-from_iter n.provenance)

  pub view_node-known :
      (a : NodeLattice) {t : NodeType} {l : String}
      → L.conflict_reveal a.node_type ≡ some t
      → L.conflict_reveal a.label ≡ some l
      → view_node (some a)
        ≡ some (record {
          node_type = t;
          label = l;
          hypothetical = L.min_reveal a.hypothetical;
          events = events (L.set_reveal a.provenance);
        })
  view_node-known a ht hl = rw (ht, hl)

  -- The merge of a stored node with a message that agrees with it.
  pub view_node-merge :
      (a : NodeLattice) (n : Proto.Node) (t : NodeType)
      → L.conflict_reveal a.node_type ≡ some t
      → L.conflict_reveal a.label ≡ some n.label
      → view_node (some (Node.merge a (lattice n t)).0)
        ≡ some (record {
          node_type = t;
          label = n.label;
          hypothetical = L.min_reveal a.hypothetical && n.hypothetical;
          events = append (events (L.set_reveal a.provenance)) (entry_of n t).events;
        })
  view_node-merge a n t ht hl =
      let ps = from_iter (map provenance_from_proto n.provenance) in
      ap fields (
        reveal-merge a (lattice n t)
        ∙ ap (join (reveal a)) (reveal-new t n.label n.hypothetical ps))
      ∙ rw (
        ht,
        hl,
        (node_type_eq.beq_iff t t).1 refl,
        (string_eq.beq_iff n.label n.label).1 refl,
        events-extend (L.set_reveal a.provenance) ps
            (from_iter-IsSorted (map provenance_from_proto n.provenance)),
        events-from_iter n.provenance,
      )
