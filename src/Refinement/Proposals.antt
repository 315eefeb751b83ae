-- ===== src/Refinement/Proposals.antt =====
-- A delta as the proposals that it makes to the reference graph, without times.
use mathlib.Core.Option
use tee.Base.{
  ◌≡◌, refl, ap, sym, ◌∙◌, inl, inr, String, Bool, true, false, Option, List, [], ◌∷◌, arith, is_ok,
  ok, err, Result-cases, Bool-cases, string_key, if◌then◌else◌,
}
use tee.Base.Fold.{fold_all}
use tee.Collections.BTreeSet.{is_eq}
use tee.Proto
use tee.Domain.Types.{NodeType}
use tee.Domain.Edge.{EdgeKey, new_key, edge_key}
use tee.Convert.{node_type_try_from, edge_type_try_from}
use tee.Store.Hypothesis.{no_results, edge_id}
use tee.Reference.{Entry, Events, Graph, events_of, set}
use tee.Reference.Hypothesis
use tee.Reference.Hypothesis.{entry_of, propose, report, append_at, report_edge}
use tee.Refinement.Outline.{
  Outline, Reasons, outline, reasons, put, put_reasons, outline-propose, reasons-append_at,
}

-- The proposals of a delta, up to the first whose type is none.
abbrev pub proposals : List Proto.Node → List (String × Outline)
proposals [] = []
proposals (n ∷ ns) = elim (node_type_try_from n.type) [
  | err _ ↦ []
  | ok t ↦ (n.id, outline (entry_of n t)) ∷ proposals ns
]

abbrev pub edge_proposals : List Proto.Edge → List (EdgeKey × Reasons)
edge_proposals [] = []
edge_proposals (e ∷ es) = elim (edge_type_try_from e.type) [
  | err _ ↦ []
  | ok t ↦ (new_key e.source e.target t, reasons (events_of e.provenance)) ∷ edge_proposals es
]

abbrev pub all_convert : List Proto.Node → Bool
all_convert [] = true
all_convert (n ∷ ns) = elim (node_type_try_from n.type) [ err _ ↦ false | ok _ ↦ all_convert ns ]

-- The edges are proposed where all nodes convert.
abbrev pub proposed_edges : Proto.HypothesisDelta → List (EdgeKey × Reasons)
proposed_edges d = if all_convert d.nodes then edge_proposals d.edges else []

-- What a proposal does at one id, and at one key.
abbrev pub at_id : String → String × Outline → Option Outline → Option Outline
at_id id p x = if is_eq (string_key.cmp id p.0) then put x p.1 else x

abbrev pub at_key : EdgeKey → EdgeKey × Reasons → Option Reasons → Option Reasons
at_key k p x = if is_eq (edge_key.cmp k p.0) then put_reasons x p.1 else x

outline-set :
    (m : String → Option Entry) (n : Proto.Node) (t : NodeType) (id : String)
    → Option.map outline (set m n.id (propose (m n.id) (entry_of n t)) id)
      ≡ at_id id (n.id, outline (entry_of n t)) (Option.map outline (m id))
outline-set m n t id = elim (Bool-cases (is_eq (string_key.cmp id n.id))) [
  | inl h ↦
      let here : id ≡ n.id = ground (arith, string_key.eq_of_cmp id n.id) in
      rw h (
        outline-propose (m n.id) (entry_of n t)
        ∙ ap (λ j. put (Option.map outline (m j)) (outline (entry_of n t))) (sym here))
  | inr h ↦ rw h
]

outline-merge_nodes :
    (ns : List Proto.Node) (m : String → Option Entry) (r : Proto.HypothesisMergeResult)
    (id : String)
    → Option.map outline ((Hypothesis.merge_nodes ns m r).0 id)
      ≡ fold_all (at_id id) (proposals ns) (Option.map outline (m id))
unfolding Hypothesis.merge_nodes fold_all
outline-merge_nodes [] m r id = refl
outline-merge_nodes (n ∷ ns) m r id = elim (Result-cases (node_type_try_from n.type)) [
  | inr (e, h) ↦ rw (h, Hypothesis.merge_nodes, proposals, fold_all)
  | inl (t, h) ↦
      let new = entry_of n t in
      rw (h, Hypothesis.merge_nodes, proposals, fold_all)
        (outline-merge_nodes ns (set m n.id (propose (m n.id) new)) (report n.id (m n.id) new r) id
          ∙ ap (fold_all (at_id id) (proposals ns)) (outline-set m n t id))
]

reasons-set :
    (m : EdgeKey → Option Events) (j : EdgeKey) (e : Events) (k : EdgeKey)
    → Option.map reasons (set m j (append_at (m j) e) k)
      ≡ at_key k (j, reasons e) (Option.map reasons (m k))
reasons-set m j e k = elim (Bool-cases (is_eq (edge_key.cmp k j))) [
  | inl h ↦
      let here : k ≡ j = ground (arith, edge_key.eq_of_cmp k j) in
      rw h (
        reasons-append_at (m j) e
        ∙ ap (λ i. put_reasons (Option.map reasons (m i)) (reasons e)) (sym here))
  | inr h ↦ rw h
]

reasons-merge_edges :
    (es : List Proto.Edge) (m : EdgeKey → Option Events) (r : Proto.HypothesisMergeResult)
    (k : EdgeKey)
    → Option.map reasons ((Hypothesis.merge_edges es m r).0 k)
      ≡ fold_all (at_key k) (edge_proposals es) (Option.map reasons (m k))
unfolding Hypothesis.merge_edges fold_all
reasons-merge_edges [] m r k = refl
reasons-merge_edges (e ∷ es) m r k = elim (Result-cases (edge_type_try_from e.type)) [
  | inr (f, h) ↦ rw (h, Hypothesis.merge_edges, edge_proposals, fold_all)
  | inl (t, h) ↦
      let j = new_key e.source e.target t in
      let new = events_of e.provenance in
      rw (h, Hypothesis.merge_edges, edge_proposals, fold_all)
        (reasons-merge_edges es (set m j (append_at (m j) new)) (report_edge (edge_id e) (m j) r) k
          ∙ ap (fold_all (at_key k) (edge_proposals es)) (reasons-set m j new k))
]

-- Whether the nodes of a delta are all merged does not depend on the graph.
merge_nodes-all_convert :
    (ns : List Proto.Node) (m : String → Option Entry) (r : Proto.HypothesisMergeResult)
    → is_ok (Hypothesis.merge_nodes ns m r).1 ≡ all_convert ns
unfolding Hypothesis.merge_nodes
merge_nodes-all_convert [] m r = refl
merge_nodes-all_convert (n ∷ ns) m r = elim (Result-cases (node_type_try_from n.type)) [
  | inr (e, h) ↦ rw (h, Hypothesis.merge_nodes, all_convert)
  | inl (t, h) ↦
      rw (h, Hypothesis.merge_nodes, all_convert)
        (merge_nodes-all_convert ns (set m n.id (propose (m n.id) (entry_of n t)))
          (report n.id (m n.id) (entry_of n t) r))
]

pub outline-merge_hypothesis :
    (d : Proto.HypothesisDelta) (g : Graph) (id : String)
    → Option.map outline ((Hypothesis.merge_hypothesis d g).0.nodes id)
      ≡ fold_all (at_id id) (proposals d.nodes) (Option.map outline (g.nodes id))
unfolding Hypothesis.merge_hypothesis
outline-merge_hypothesis d g id =
    elim (Result-cases (Hypothesis.merge_nodes d.nodes g.nodes no_results).1) [
      | inr (e, h) ↦
          rw (h, Hypothesis.merge_hypothesis) (outline-merge_nodes d.nodes g.nodes no_results id)
      | inl (r, h) ↦
          rw (h, Hypothesis.merge_hypothesis) (outline-merge_nodes d.nodes g.nodes no_results id)
    ]

pub reasons-merge_hypothesis :
    (d : Proto.HypothesisDelta) (g : Graph) (k : EdgeKey)
    → Option.map reasons ((Hypothesis.merge_hypothesis d g).0.edges k)
      ≡ fold_all (at_key k) (proposed_edges d) (Option.map reasons (g.edges k))
unfolding Hypothesis.merge_hypothesis fold_all
reasons-merge_hypothesis d g k =
    let c = merge_nodes-all_convert d.nodes g.nodes no_results in
    elim (Result-cases (Hypothesis.merge_nodes d.nodes g.nodes no_results).1) [
      | inr (e, h) ↦
          let stop : all_convert d.nodes ≡ false = sym c ∙ ap is_ok h in
          rw (h, Hypothesis.merge_hypothesis, stop, fold_all)
      | inl (r, h) ↦
          let go : all_convert d.nodes ≡ true = sym c ∙ ap is_ok h in
          rw (h, Hypothesis.merge_hypothesis, go) (reasons-merge_edges d.edges g.edges r k)
    ]
