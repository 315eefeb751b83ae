-- ===== src/Store/Hypothesis/Single.antt =====
-- `merge_hypothesis` of store/memory.rs for one node whose id is stored.
use tee.Base.{
  push, ◌≡◌, ap, ◌∙◌, String, none, some, [], ◌∷◌, arith, ok, Bool-cases, inl, inr, string_eq,
  string_key, if◌then◌else◌,
}
use tee.Collections.BTreeMap.{get, insert}
use tee.Lattices.{Lattices}
use tee.Proto
use tee.Domain.Types.{NodeType, node_type_eq, show_node_type}
use tee.Domain.Node
use tee.Domain.Node.{NodeLattice, conflict_field}
use tee.Domain.Node.Facts.{has_conflict-differs}
use tee.Domain.Provenance.{provenance_ord}
use tee.Convert.{proto_node_to_domain}
use tee.Store.State.{InnerState}
use tee.Store.Hypothesis.Nodes.{Nodes}
use tee.Store.Hypothesis.Replay.{merge_hypothesis-merged}
use tee.Store.Hypothesis.{
  merge_node, merge_nodes, merge_edges, merge_hypothesis, no_results, conflict_report,
  existing_value,
}

module _ ⦃L : Lattices⦄ where
  -- The field that a conflict is blamed on is the type, where the types differ, and else the label.
  conflict_field-merge :
      (a b : NodeLattice) {t u : NodeType} {l m : String}
      → L.conflict_reveal a.node_type ≡ some t
      → L.conflict_reveal a.label ≡ some l
      → L.conflict_reveal b.node_type ≡ some u
      → L.conflict_reveal b.label ≡ some m
      → conflict_field (Node.merge a b).0 ≡ (
          if node_type_eq.beq t u
          then if string_eq.beq l m then none else some "label"
          else some "type")
  unfolding conflict_field Node.merge
  conflict_field-merge a b ta la tb lb =
      rw
        (
          L.conflict_top (Node.merge a b).0.node_type,
          L.conflict_top (Node.merge a b).0.label,
          L.conflict_reveal-merge a.node_type b.node_type,
          L.conflict_reveal-merge a.label b.label,
          ta,
          la,
          tb,
          lb,
        )
        (ground arith)

  conflict_report-type :
      (id : String) (a c : NodeLattice) {t : NodeType}
      → L.conflict_reveal a.node_type ≡ some t
      → conflict_field c ≡ some "type"
      → conflict_report id a c
        ≡ record { id = id; field = "type"; existing_value = show_node_type t; proposed_value = "" }
  unfolding conflict_report existing_value
  conflict_report-type id a c h f = rw (f, conflict_report, existing_value, h)

  conflict_report-label :
      (id : String) (a c : NodeLattice) {l : String}
      → L.conflict_reveal a.label ≡ some l
      → conflict_field c ≡ some "label"
      → conflict_report id a c
        ≡ record { id = id; field = "label"; existing_value = l; proposed_value = "" }
  unfolding conflict_report existing_value
  conflict_report-label id a c h f = rw (f, conflict_report, existing_value, h)

  -- The body of the loop where the id is stored, on its three branches.
  pub merge_node_stored :
      (id : String) (b : NodeLattice) (nodes : Nodes) (r : Proto.HypothesisMergeResult)
      {a : NodeLattice} {t u : NodeType} {l m : String}
      → get nodes id ≡ some a
      → L.conflict_reveal a.node_type ≡ some t
      → L.conflict_reveal a.label ≡ some l
      → L.conflict_reveal b.node_type ≡ some u
      → L.conflict_reveal b.label ≡ some m
      → merge_node id b nodes r ≡ (
          if node_type_eq.beq t u
          then if string_eq.beq l m
            then (
              insert nodes id (Node.merge a b).0,
              record r { merged_ids = push r.merged_ids id },
            )
            else (
              nodes,
              record r {
                conflicts =
                    push r.conflicts (record {
                      id = id;
                      field = "label";
                      existing_value = l;
                      proposed_value = "";
                    });
              },
            )
          else (
            nodes,
            record r {
              conflicts = push r.conflicts (record {
                id = id;
                field = "type";
                existing_value = show_node_type t;
                proposed_value = "";
              });
            },
          ))
  unfolding merge_node
  merge_node_stored id b nodes r {a} {t} {u} {l} {m} g ta la tb lb =
      let clash = has_conflict-differs a b ta la tb lb in
      let field = conflict_field-merge a b ta la tb lb in
      elim (Bool-cases (node_type_eq.beq t u)) [
        | inl p ↦ elim (Bool-cases (string_eq.beq l m)) [
          | inl q ↦ rw (g, merge_node, clash, p, q)
          | inr q ↦ rw (
            g,
            merge_node,
            clash,
            p,
            q,
            conflict_report-label id a (Node.merge a b).0 la (field ∙ rw (p, q)),
          )
        ]
        | inr p ↦ rw (
          g,
          merge_node,
          clash,
          p,
          conflict_report-type id a (Node.merge a b).0 ta (field ∙ rw p),
        )
      ]

  merge_hypothesis-step :
      (n : Proto.Node) (s : InnerState) {b : NodeLattice} {id : String}
      (out : Nodes × Proto.HypothesisMergeResult)
      → proto_node_to_domain n ≡ ok (id, b)
      → merge_node id b s.nodes no_results ≡ out
      → merge_hypothesis (record { nodes = n ∷ []; edges = [] }) s
        ≡ (record s { nodes = out.0 }, ok out.1)
  unfolding merge_nodes merge_edges
  merge_hypothesis-step n s out c h =
      let step : merge_nodes (n ∷ []) s.nodes no_results ≡ (out.0, ok out.1) =
        rw (c, merge_nodes, h) in
      merge_hypothesis-merged (record { nodes = n ∷ []; edges = [] }) s (ap (λ o. o.1) step) ∙ λ i.
      (record s { nodes = (step i).0 }, ok out.1)

  -- A delta of one node whose type converts and whose id is stored with a type and a label. Where
  -- the types differ nothing is stored, and the report names the field "type" and the stored type.
  -- Where only the labels differ nothing is stored, and the report names the field "label" and the
  -- stored label. The proposed value is empty in both. Where both agree, the merge of the two is
  -- stored under the id, which is reported as merged.
  pub merge_hypothesis_single :
      (n : Proto.Node) (s : InnerState) {a b : NodeLattice} {id : String} {t u : NodeType}
      {l m : String}
      → proto_node_to_domain n ≡ ok (id, b)
      → get s.nodes id ≡ some a
      → L.conflict_reveal a.node_type ≡ some t
      → L.conflict_reveal a.label ≡ some l
      → L.conflict_reveal b.node_type ≡ some u
      → L.conflict_reveal b.label ≡ some m
      → merge_hypothesis (record { nodes = n ∷ []; edges = [] }) s ≡ (
          if node_type_eq.beq t u
          then if string_eq.beq l m
            then (
              record s { nodes = insert s.nodes id (Node.merge a b).0 },
              ok (record no_results { merged_ids = id ∷ [] }),
            )
            else (
              s,
              ok (record no_results {
                conflicts =
                    record { id = id; field = "label"; existing_value = l; proposed_value = "" }
                    ∷ [];
              }),
            )
          else (
            s,
            ok (record no_results {
              conflicts =
                  record {
                    id = id;
                    field = "type";
                    existing_value = show_node_type t;
                    proposed_value = "";
                  }
                  ∷ [];
            }),
          ))
  merge_hypothesis_single n s {a} {b} {id} {t} {u} {l} {m} c g ta la tb lb =
      let stored = merge_node_stored id b s.nodes no_results g ta la tb lb in
      elim (Bool-cases (node_type_eq.beq t u)) [
        | inl p ↦ elim (Bool-cases (string_eq.beq l m)) [
          | inl q ↦ rw (p, q) (merge_hypothesis-step n s _ c (stored ∙ rw (p, q)))
          | inr q ↦ rw (p, q) (merge_hypothesis-step n s _ c (stored ∙ rw (p, q)))
        ]
        | inr p ↦ rw p (merge_hypothesis-step n s _ c (stored ∙ rw p))
      ]
