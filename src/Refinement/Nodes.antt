-- ===== src/Refinement/Nodes.antt =====
-- The loop of `merge_hypothesis` over the nodes, against that of the reference store.
use tee.Base.{
  push, ◌≡◌, refl, ap, sym, ◌∙◌, inl, inr, false, ◌&&◌, String, none, some, List, [], ◌∷◌, ok, err,
  Result-cases, Option-cases, Bool-cases, string_eq, string_key,
}
use tee.Collections.BTreeMap.{get, insert}
use tee.Lattices.{Lattices}
use tee.Proto
use tee.Domain.Types.{NodeType, node_type_eq}
use tee.Domain.Provenance.{provenance_ord}
use tee.Domain.Node
use tee.Domain.Node.{NodeLattice}
use tee.Domain.Node.Merge.{reveal-merge}
use tee.Convert.{ConversionError, node_type_try_from, proto_node_to_domain}
use tee.Store.Hypothesis.{merge_node, merge_nodes}
use tee.Store.Hypothesis.Nodes.{Nodes}
use tee.Store.Hypothesis.Single.{merge_node_stored}
use tee.Reference.{set}
use tee.Reference.Hypothesis as Reference
use tee.Reference.Hypothesis.{entry_of, accept, propose, report}
use tee.Refinement.{events, view_node, view_nodes}
use tee.Refinement.Maps.{view-insert, set_same}
use tee.Refinement.Entries.{
  IsComplete, IsComplete-insert, lattice, lattice-type, lattice-label, view_node-new,
  view_node-known, view_node-merge,
}

module _ ⦃L : Lattices⦄ where
  -- One proposal: the map, the report, and that the map stays complete.
  pub record Refines (m : Nodes) (n : Proto.Node) (t : NodeType) (r : Proto.HypothesisMergeResult)
      (out : Nodes × Proto.HypothesisMergeResult) : Type 0 where
    pub nodes :
        view_nodes out.0 ≡ set (view_nodes m) n.id (propose (view_nodes m n.id) (entry_of n t))
    pub result : out.1 ≡ report n.id (view_nodes m n.id) (entry_of n t) r
    pub complete : IsComplete out.0

  created-Refines :
      (m : Nodes) (n : Proto.Node) (t : NodeType) (r : Proto.HypothesisMergeResult)
      → IsComplete m
      → get m n.id ≡ none
      → Refines m n t r (merge_node n.id (lattice n t) m r)
  unfolding merge_node
  created-Refines m n t r c h =
      rw (h, merge_node)
        (record {
          nodes = rw (h) (view-insert view_node m n.id (lattice n t) (view_node-new n t));
          result = rw h;
          complete =
              IsComplete-insert m n.id (lattice n t) (lattice-type n t) (lattice-label n t) c;
        })

  merged-Refines :
      (m : Nodes) (n : Proto.Node) (t : NodeType) (r : Proto.HypothesisMergeResult)
      {a : NodeLattice}
      → IsComplete m
      → get m n.id ≡ some a
      → L.conflict_reveal a.node_type ≡ some t
      → L.conflict_reveal a.label ≡ some n.label
      → Refines m n t r (
        insert m n.id (Node.merge a (lattice n t)).0,
        record r { merged_ids = push r.merged_ids n.id },
      )
  merged-Refines m n t r {a} c h ht hl =
      let same = (node_type_eq.beq_iff t t).1 refl in
      let same' = (string_eq.beq_iff n.label n.label).1 refl in
      record {
        nodes =
            rw (h, ht, hl, same, same')
              (view-insert view_node m n.id (Node.merge a (lattice n t)).0
                (view_node-merge a n t ht hl));
        result = rw (h, ht, hl, same, same');
        complete =
            IsComplete-insert m n.id (Node.merge a (lattice n t)).0 {t = t} {l = n.label}
              (ap (λ r. r.node_type) (reveal-merge a (lattice n t))
                ∙ rw (ht, lattice-type n t, same))
              (ap (λ r. r.label) (reveal-merge a (lattice n t)) ∙ rw (hl, lattice-label n t, same'))
              c;
      }

  clash-Refines :
      (m : Nodes) (n : Proto.Node) (t : NodeType) (r q : Proto.HypothesisMergeResult)
      {a : NodeLattice} {u : NodeType} {l : String}
      → IsComplete m
      → get m n.id ≡ some a
      → L.conflict_reveal a.node_type ≡ some u
      → L.conflict_reveal a.label ≡ some l
      → node_type_eq.beq u t && string_eq.beq l n.label ≡ false
      → q ≡ report n.id (view_nodes m n.id) (entry_of n t) r
      → Refines m n t r (m, q)
  clash-Refines m n t r q {a} {u} {l} c h hu hl differ e = record {
    nodes = sym (
        ap (λ x. set (view_nodes m) n.id (propose x (entry_of n t))) known
        ∙ ap (set (view_nodes m) n.id) (rw differ)
        ∙ set_same (view_nodes m) n.id _ known);
    result = e;
    complete = c;
  }
    where
      known :
          view_nodes m n.id
          ≡ some (record {
            node_type = u;
            label = l;
            hypothetical = L.min_reveal a.hypothetical;
            events = events (L.set_reveal a.provenance);
          })
      known = rw h (view_node-known a hu hl)

  merge_node-Refines :
      (m : Nodes) (n : Proto.Node) (t : NodeType) (r : Proto.HypothesisMergeResult)
      → IsComplete m
      → Refines m n t r (merge_node n.id (lattice n t) m r)
  merge_node-Refines m n t r c = elim (Option-cases (get m n.id)) [
    | inl h ↦ created-Refines m n t r c h
    | inr (a, h) ↦
        let (u, hu, l, hl) = c n.id a h in
        let stored =
          merge_node_stored n.id (lattice n t) m r h hu hl (lattice-type n t) (lattice-label n t) in
        elim (Bool-cases (node_type_eq.beq u t)) [
          | inl p ↦ elim (Bool-cases (string_eq.beq l n.label)) [
            | inl q ↦
                rw (stored, p, q)
                  (merged-Refines m n t r c h
                    (hu ∙ ap (λ x. some x) ((node_type_eq.beq_iff u t).0 p))
                    (hl ∙ ap (λ x. some x) ((string_eq.beq_iff l n.label).0 q)))
            | inr q ↦
                rw (stored, p, q)
                  (clash-Refines m n t r _ c h hu hl (rw (p, q)) (rw (h, hu, hl, p, q)))
          ]
          | inr p ↦ rw (stored, p) (clash-Refines m n t r _ c h hu hl (rw p) (rw (h, hu, hl, p)))
        ]
  ]

  proto_node_to_domain-ok :
      (n : Proto.Node) (t : NodeType)
      → node_type_try_from n.type ≡ ok t
      → proto_node_to_domain n ≡ ok (n.id, lattice n t)
  unfolding proto_node_to_domain
  proto_node_to_domain-ok n t e = rw e

  proto_node_to_domain-err :
      (n : Proto.Node) {f : ConversionError}
      → node_type_try_from n.type ≡ err f
      → proto_node_to_domain n ≡ err f
  unfolding proto_node_to_domain
  proto_node_to_domain-err n e = rw e

  -- The loop leaves the map and gives the result that the reference store does.
  pub merge_nodes-refines :
      (ns : List Proto.Node) (m : Nodes) (r : Proto.HypothesisMergeResult)
      → IsComplete m
      → (view_nodes (merge_nodes ns m r).0, (merge_nodes ns m r).1)
        ≡ Reference.merge_nodes ns (view_nodes m) r
  unfolding merge_nodes Reference.merge_nodes
  merge_nodes-refines [] m r c = refl
  merge_nodes-refines (n ∷ ns) m r c = elim (Result-cases (node_type_try_from n.type)) [
    | inl (t, e) ↦
        let next = merge_node n.id (lattice n t) m r in
        let step = merge_node-Refines m n t r c in
        rw (proto_node_to_domain-ok n t e, merge_nodes, Reference.merge_nodes, e)
          (merge_nodes-refines ns next.0 next.1 step.complete ∙ λ i.
            Reference.merge_nodes ns (step.nodes i) (step.result i))
    | inr (f, e) ↦ rw (proto_node_to_domain-err n e, merge_nodes, Reference.merge_nodes, e)
  ]
