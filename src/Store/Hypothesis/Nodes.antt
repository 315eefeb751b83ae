-- ===== src/Store/Hypothesis/Nodes.antt =====
-- The loop over the nodes of a delta, as a loop that converts and applies.
use tee.Base.{
  ◌≡◌, refl, ap, ◌∙◌, ◌⊎◌, inl, inr, String, true, false, none, some, List, [], ◌∷◌, arith, ok,
  Result-cases, Option-cases, Bool-cases, string_key,
}
use tee.Base.Fold.{fold_until}
use tee.Collections.BTreeMap.{BTreeMap, get, insert, insert_same}
use tee.Collections.BTreeMap.Laws.{get-insert_self, get-insert_ne, Key-cases}
use tee.Lattices.{Lattices}
use tee.Proto
use tee.Domain.Node
use tee.Domain.Node.{NodeLattice}
use tee.Domain.Node.Merge.{merge_again, merge_kept, merge_clash, merge_self}
use tee.Convert.{proto_node_to_domain}
use tee.Convert.Facts.{proto_node_to_domain-IsSorted}
use tee.Store.Hypothesis.{merge_node, merge_nodes, no_results}

module _ ⦃L : Lattices⦄ where
  abbrev pub Nodes : Type 0
  Nodes = BTreeMap String NodeLattice

  -- What one node makes of the map, whatever has been reported so far.
  abbrev pub put_node : String × NodeLattice → Nodes → Nodes
  put_node e nodes = (merge_node e.0 e.1 nodes no_results).0

  put_node_lem :
      (id : String) (l : NodeLattice) (nodes : Nodes) (r : Proto.HypothesisMergeResult)
      → (merge_node id l nodes r).0 ≡ put_node (id, l) nodes
  unfolding merge_node
  put_node_lem id l nodes r = ground arith

  -- The map that the loop leaves behind, with and without an error.
  pub merge_nodes-fold :
      (ns : List Proto.Node) (nodes : Nodes) (r : Proto.HypothesisMergeResult)
      → (merge_nodes ns nodes r).0 ≡ fold_until proto_node_to_domain put_node ns nodes
  unfolding merge_nodes fold_until
  merge_nodes-fold [] nodes r = refl
  merge_nodes-fold (n ∷ ns) nodes r = elim (Result-cases (proto_node_to_domain n)) [
    | inl ((id, l), e) ↦
        rw (e, merge_nodes, fold_until)
          (merge_nodes-fold ns (merge_node id l nodes r).0 (merge_node id l nodes r).1
            ∙ ap (fold_until proto_node_to_domain put_node ns) (put_node_lem id l nodes r))
    | inr (_, e) ↦ rw (e, merge_nodes, fold_until)
  ]

  -- The four outcomes of one node, in terms of what is stored under its id.
  pub put_node-new :
      (id : String) (l : NodeLattice) (nodes : Nodes)
      → get nodes id ≡ none
      → put_node (id, l) nodes ≡ insert nodes id l
  unfolding merge_node
  put_node-new id l nodes h = rw (h, put_node, merge_node)

  pub put_node-clash :
      (id : String) (l : NodeLattice) (nodes : Nodes) {a : NodeLattice}
      → get nodes id ≡ some a
      → Node.has_conflict (Node.merge a l).0 ≡ true
      → put_node (id, l) nodes ≡ nodes
  unfolding merge_node
  put_node-clash id l nodes h c = rw (h, put_node, merge_node, c)

  pub put_node-merge :
      (id : String) (l : NodeLattice) (nodes : Nodes) {a : NodeLattice}
      → get nodes id ≡ some a
      → Node.has_conflict (Node.merge a l).0 ≡ false
      → put_node (id, l) nodes ≡ insert nodes id (Node.merge a l).0
  unfolding merge_node
  put_node-merge id l nodes h c = rw (h, put_node, merge_node, c)

  -- What is stored under the id of a node, before and after: the case rule of the proofs below.
  pub put_node_cases {ℓ} :
      (P : Nodes → Type ℓ) (id : String) (l : NodeLattice) (nodes : Nodes)
      → (get nodes id ≡ none → P (insert nodes id l))
      → ((a : NodeLattice)
          → get nodes id ≡ some a
          → Node.has_conflict (Node.merge a l).0 ≡ true
          → P nodes)
      → ((a : NodeLattice)
          → get nodes id ≡ some a
          → Node.has_conflict (Node.merge a l).0 ≡ false
          → P (insert nodes id (Node.merge a l).0))
      → P (put_node (id, l) nodes)
  put_node_cases P id l nodes created clashed merged = elim (Option-cases (get nodes id)) [
    | inl h ↦ rw (put_node-new id l nodes h) (created h)
    | inr (a, h) ↦ elim (Bool-cases (Node.has_conflict (Node.merge a l).0)) [
      | inl c ↦ rw (put_node-clash id l nodes h c) (clashed a h c)
      | inr c ↦ rw (put_node-merge id l nodes h c) (merged a h c)
    ]
  ]

  -- A node adds nothing: it clashes with the one that is stored, or is part of it.
  abbrev pub AddsNothing : String × NodeLattice → Nodes → Type 0
  AddsNothing e nodes =
      (a : NodeLattice) × (get nodes e.0 ≡ some a)
      × ((Node.has_conflict (Node.merge a e.1).0 ≡ true) ⊎ ((Node.merge a e.1).0 ≡ a))

  pub put_node-absorbed :
      (e : String × NodeLattice) (nodes : Nodes) → AddsNothing e nodes → put_node e nodes ≡ nodes
  put_node-absorbed (id, l) nodes (a, h, inl c) = put_node-clash id l nodes h c
  put_node-absorbed (id, l) nodes (a, h, inr m) =
      elim (Bool-cases (Node.has_conflict (Node.merge a l).0)) [
        | inl c ↦ put_node-clash id l nodes h c
        | inr c ↦ put_node-merge id l nodes h c ∙ rw m (insert_same nodes id a h)
      ]

  pub put_node-absorbs :
      (node : Proto.Node) (e : String × NodeLattice) (nodes : Nodes)
      → proto_node_to_domain node ≡ ok e
      → AddsNothing e (put_node e nodes)
  put_node-absorbs node (id, l) nodes conv =
      put_node_cases (AddsNothing (id, l)) id l nodes
        (λ h. (
          l,
          get-insert_self nodes id l,
          inr (merge_self l (proto_node_to_domain-IsSorted node conv)),
        ))
        (λ a h c. (a, h, inl c))
        (λ a h c. ((Node.merge a l).0, get-insert_self nodes id _, inr (merge_again a l)))

  still :
      (a b c : NodeLattice)
      → Node.has_conflict (Node.merge a c).0 ≡ false
      → (Node.has_conflict (Node.merge a b).0 ≡ true) ⊎ ((Node.merge a b).0 ≡ a)
      → (Node.has_conflict (Node.merge (Node.merge a c).0 b).0 ≡ true)
        ⊎ ((Node.merge (Node.merge a c).0 b).0 ≡ (Node.merge a c).0)
  still a b c k (inl h) = inl (merge_clash a b c h k)
  still a b c k (inr h) = inr (merge_kept a b c h)

  pub put_node-stays :
      (e f : String × NodeLattice) (nodes : Nodes)
      → AddsNothing e nodes
      → AddsNothing e (put_node f nodes)
  put_node-stays (id, l) (j, k) nodes (a, h, s) = elim (Key-cases id j) [
    | inl same ↦
        put_node_cases (AddsNothing (id, l)) j k nodes
          (λ n. absurd (ground (arith, ap (get nodes) same))) (λ b g c. (a, h, s))
          (λ b g c.
            let eq : b ≡ a = ground (arith, ap (get nodes) same) in
            (
              (Node.merge b k).0,
              rw same (get-insert_self nodes j _),
              rw eq (still a l k (rw eq at c) s),
            ))
    | inr other ↦
        put_node_cases (AddsNothing (id, l)) j k nodes
          (λ n. (a, get-insert_ne nodes j k id other ∙ h, s)) (λ b g c. (a, h, s))
          (λ b g c. (a, get-insert_ne nodes j _ id other ∙ h, s))
  ]
