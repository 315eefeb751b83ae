-- ===== src/Refinement/Answer.antt =====
-- The answer of `merge_hypothesis` of store/memory.rs, node by node and edge by edge.
use mathlib.Core.Option
use tee.Base.{
  ◌≡◌, refl, ap, sym, ◌∙◌, fun_ext, inl, inr, String, Bool, true, false, ◌&&◌, ◌||◌, Option, none,
  some, List, [], ◌∷◌, ◌++◌, map, arith, ok, is_some, Result-cases, Bool-cases, string_eq,
  string_key, if◌then◌else◌,
}
use tee.Collections.BTreeSet.{is_eq}
use tee.Collections.BTreeSet.Joins.{or_else}
use tee.Lattices.{Lattices}
use tee.Proto
use tee.Domain.Types.{NodeType, node_type_eq}
use tee.Domain.Edge.{EdgeKey, new_key, edge_key}
use tee.Convert.{node_type_try_from, edge_type_try_from}
use tee.Store.State.{InnerState}
use tee.Store.Invariant.{IsValid}
use tee.Store.Hypothesis.{edge_id, no_results}
use tee.Store.Hypothesis as Store
use tee.Reference.{Entry, Events, Graph, events_of, set}
use tee.Reference.Hypothesis
use tee.Reference.Hypothesis.{entry_of, accept, propose, report, append_at, report_edge}
use tee.Refinement.{view}
use tee.Refinement.Entries.{IsComplete-valid}
use tee.Refinement.Methods.{merge_hypothesis-refines}
use tee.Refinement.Fates.{
  Fate, created, merged, Claims, claim, fate, node_fates, edge_fates, created_of, merged_of,
  conflicts_of, more, one_more, more-nil, more-cons, more-append, ok_inj, map-append,
}

-- The type and label of an entry.
abbrev face : Entry → NodeType × String
face e = (e.node_type, e.label)

abbrev claims_of : (String → Option Entry) → Claims
claims_of m id = Option.map face (m id)

face-accept : (old new : Entry) → face (accept old new) ≡ face old
face-accept old new =
    elim (Bool-cases
      (node_type_eq.beq old.node_type new.node_type && string_eq.beq old.label new.label)) [
        | inl h ↦ rw h
        | inr h ↦ rw h
      ]

-- A proposal claims its id.
claims_of-set :
    (m : String → Option Entry) (id : String) (new : Entry)
    → claims_of (set m id (propose (m id) new)) ≡ claim (claims_of m) id (face new)
claims_of-set m id new = fun_ext (λ j. at j)
  where
    here :
        (x : Option Entry)
        → some (face (propose x new)) ≡ or_else (Option.map face x) (some (face new))
    here none = refl
    here (some old) = ap (λ c. some c) (face-accept old new)

    there : (x : Option Entry) → Option.map face x ≡ or_else (Option.map face x) none
    there none = refl
    there (some old) = refl

    at :
        (j : String)
        → claims_of (set m id (propose (m id) new)) j ≡ claim (claims_of m) id (face new) j
    at j = elim (Bool-cases (is_eq (string_key.cmp j id))) [
      | inl h ↦
          let same : j ≡ id = ground (arith, string_key.eq_of_cmp j id) in
          rw (h, claim)
            (here (m id) ∙ ap (λ i. or_else (Option.map face (m i)) (some (face new))) (sym same))
      | inr h ↦ rw (h, claim) (there (m j))
    ]

report-fate :
    (id : String) (x : Option Entry) (new : Entry) (r : Proto.HypothesisMergeResult)
    → report id x new r ≡ one_more r id (fate (Option.map face x) (face new))
report-fate id none new r = refl
report-fate id (some old) new r = elim (Bool-cases (node_type_eq.beq old.node_type new.node_type)) [
  | inr h ↦ rw h
  | inl h ↦ elim (Bool-cases (string_eq.beq old.label new.label)) [
    | inl k ↦ rw (h, k)
    | inr k ↦ rw (h, k)
  ]
]

-- The nodes are reported by their fates, each under its id.
merge_nodes-fates :
    (ns : List Proto.Node) (m : String → Option Entry) (r q : Proto.HypothesisMergeResult)
    → (Hypothesis.merge_nodes ns m r).1 ≡ ok q
    → (q ≡ more r (node_fates (claims_of m) ns))
      × (map (λ f. f.0) (node_fates (claims_of m) ns) ≡ map (λ n. n.id) ns)
unfolding Hypothesis.merge_nodes
merge_nodes-fates [] m r q h = (sym (ok_inj h) ∙ sym (more-nil r), refl)
merge_nodes-fates (n ∷ ns) m r q h = elim (Result-cases (node_type_try_from n.type)) [
  | inr (e, c) ↦ absurd (ground arith)
  | inl (t, c) ↦
      let new = entry_of n t in
      let rest =
        merge_nodes-fates ns (set m n.id (propose (m n.id) new)) (report n.id (m n.id) new r) q
          (rw (c, Hypothesis.merge_nodes) at h) in
      let same = claims_of-set m n.id new in
      rw (c, node_fates)
        (
          rest.0
              ∙ (λ i. more (report-fate n.id (m n.id) new r i) (node_fates (same i) ns))
              ∙ more-cons r n.id (fate (claims_of m n.id) (face new)) _,
          ap (λ ids. n.id ∷ ids) (ap (λ k. map (λ f. f.0) (node_fates k ns)) (sym same) ∙ rest.1),
        )
]

report_edge-fate :
    (id : String) (x : Option Events) (r : Proto.HypothesisMergeResult)
    → report_edge id x r ≡ one_more r id (if is_some x then merged else created)
report_edge-fate id none r = refl
report_edge-fate id (some old) r = refl

-- The edges that a partial map has.
abbrev known_of : (EdgeKey → Option Events) → EdgeKey → Bool
known_of m k = is_some (m k)

known_of-set :
    (m : EdgeKey → Option Events) (k : EdgeKey) (new : Events)
    → known_of (set m k new) ≡ λ j. is_eq (edge_key.cmp j k) || known_of m j
known_of-set m k new = fun_ext (λ j. at (is_eq (edge_key.cmp j k)) (m j))
  where
    at : (b : Bool) (x : Option Events) → is_some (if b then some new else x) ≡ b || is_some x
    at true x = refl
    at false x = refl

merge_edges-fates :
    (es : List Proto.Edge) (m : EdgeKey → Option Events) (r q : Proto.HypothesisMergeResult)
    → (Hypothesis.merge_edges es m r).1 ≡ ok q
    → (q ≡ more r (edge_fates (known_of m) es))
      × (map (λ f. f.0) (edge_fates (known_of m) es) ≡ map edge_id es)
unfolding Hypothesis.merge_edges
merge_edges-fates [] m r q h = (sym (ok_inj h) ∙ sym (more-nil r), refl)
merge_edges-fates (e ∷ es) m r q h = elim (Result-cases (edge_type_try_from e.type)) [
  | inr (f, c) ↦ absurd (ground arith)
  | inl (t, c) ↦
      let k = new_key e.source e.target t in
      let new = append_at (m k) (events_of e.provenance) in
      let rest =
        merge_edges-fates es (set m k new) (report_edge (edge_id e) (m k) r) q
          (rw (c, Hypothesis.merge_edges) at h) in
      let same = known_of-set m k new in
      rw (c, edge_fates)
        (
          rest.0
              ∙ (λ i. more (report_edge-fate (edge_id e) (m k) r i) (edge_fates (same i) es))
              ∙ more-cons r (edge_id e) (if known_of m k then merged else created) _,
          ap (λ ids. edge_id e ∷ ids)
              (ap (λ g. map (λ f. f.0) (edge_fates g es)) (sym same) ∙ rest.1),
        )
]

abbrev graph_fates : Proto.HypothesisDelta → Graph → List (String × Fate)
graph_fates d g = node_fates (claims_of g.nodes) d.nodes ++ edge_fates (known_of g.edges) d.edges

merge_graph-fates :
    (d : Proto.HypothesisDelta) (g : Graph) (r : Proto.HypothesisMergeResult)
    → (Hypothesis.merge_hypothesis d g).1 ≡ ok r
    → (r ≡ more no_results (graph_fates d g))
      × (map (λ f. f.0) (graph_fates d g) ≡ map (λ n. n.id) d.nodes ++ map edge_id d.edges)
unfolding Hypothesis.merge_hypothesis
merge_graph-fates d g r h =
    elim (Result-cases (Hypothesis.merge_nodes d.nodes g.nodes no_results).1) [
      | inr (e, c) ↦ absurd (ground arith)
      | inl (q, c) ↦
          let nodes = merge_nodes-fates d.nodes g.nodes no_results q c in
          let edges =
            merge_edges-fates d.edges g.edges q r (rw (c, Hypothesis.merge_hypothesis) at h) in
          let ns = node_fates (claims_of g.nodes) d.nodes in
          let es = edge_fates (known_of g.edges) d.edges in
          (
            edges.0 ∙ ap (λ x. more x es) nodes.0 ∙ more-append no_results ns es,
            map-append (λ f. f.0) ns es ∙ (λ i. nodes.1 i ++ edges.1 i),
          )
    ]

module _ ⦃L : Lattices⦄ where
  -- The fates of the nodes and the edges of a delta that meets a state.
  abbrev pub fates : Proto.HypothesisDelta → InnerState → List (String × Fate)
  fates d s =
      node_fates (claims_of (view s).nodes) d.nodes ++ edge_fates (known_of (view s).edges) d.edges

  -- Where a delta is merged into a valid store, the answer is made of the fates of its nodes and
  -- then its edges, in their order, each under its id. A node is created where its id is neither
  -- stored nor that of a node before it in the delta. Else it is merged where its type and label are
  -- those that the id got first, and in conflict where not: then the answer names the first field
  -- that differs, the type before the label, with the value it has and an empty text for the one
  -- proposed. An edge is created where its key is neither stored nor that of an edge before it, and
  -- else it is merged.
  pub merge_hypothesis-fates :
      (d : Proto.HypothesisDelta) (s : InnerState) (r : Proto.HypothesisMergeResult)
      → IsValid s
      → (Store.merge_hypothesis d s).1 ≡ ok r
      → (r.created_ids ≡ created_of (fates d s))
        × (r.merged_ids ≡ merged_of (fates d s))
        × (r.conflicts ≡ conflicts_of (fates d s))
        × (map (λ f. f.0) (fates d s) ≡ map (λ n. n.id) d.nodes ++ map edge_id d.edges)
  merge_hypothesis-fates d s r v h =
      let same = merge_hypothesis-refines d s (IsComplete-valid s.nodes v.nodes_valid) in
      let (lists, ids) = merge_graph-fates d (view s) r (sym (ap (λ o. o.1) same) ∙ h) in
      (
        ap (λ q. q.created_ids) lists,
        ap (λ q. q.merged_ids) lists,
        ap (λ q. q.conflicts) lists,
        ids,
      )
