-- ===== src/Refinement/Tombstones.antt =====
-- The loops over tombstones, against those of the reference store.
use tee.Base.{
  ◌≡◌, refl, ap, ◌∙◌, fun_ext, inl, inr, String, Bool, is_some, List, [], ◌∷◌, arith, Result-cases,
  Option-cases, string_ord, string_key,
}
use tee.Collections.BTreeSet.{BTreeSet, contains, contains-insert}
use tee.Collections.BTreeMap.{get, contains_key}
use tee.Lattices.{Lattices}
use tee.Proto
use tee.Domain.Edge.{EdgeKey, new_key, edge_ord, edge_key}
use tee.Convert.{edge_type_try_from}
use tee.Store.Tombstones.{
  tombstone_node, tombstone_nodes, tombstone_edge, tombstone_edges, entry_id,
}
use tee.Store.Tombstones.Nodes.{tombstone_node-set}
use tee.Store.Tombstones.Edges.{tombstone_edge-set}
use tee.Store.Hypothesis.Nodes.{Nodes}
use tee.Store.Hypothesis.Edges.{Edges}
use tee.Reference.Tombstones as Reference
use tee.Reference.Tombstones.{add, classify}
use tee.Refinement.{view_nodes, view_edges}
use tee.Refinement.Entries.{IsComplete}

module _ ⦃L : Lattices⦄ where
  -- The nodes and edges that the reference store knows are the keys of the maps.
  pub known_nodes : (m : Nodes) → IsComplete m → contains_key m ≡ (λ id. is_some (view_nodes m id))
  known_nodes m c = fun_ext (λ id. elim (Option-cases (get m id)) [
    | inl h ↦ rw h
    | inr (a, h) ↦ let (t, ht, l, hl) = c id a h in rw (h, ht, hl)
  ])

  pub known_edges : (m : Edges) → contains_key m ≡ (λ k. is_some (view_edges m k))
  known_edges m = fun_ext (λ k. elim (Option-cases (get m k)) [ inl h ↦ rw h | inr (a, h) ↦ rw h ])

  tombstone_node-refines :
      (nodes : Nodes) (id : String) (t : BTreeSet String) (r : Proto.TombstoneMergeResult)
      → ◌≡◌ {A = (String → Bool) × Proto.TombstoneMergeResult}
          (contains (tombstone_node nodes id t r).0, (tombstone_node nodes id t r).1)
          (add (contains t) id, classify (contains t id) (contains_key nodes id) id r)
  unfolding string_key tombstone_node
  tombstone_node-refines nodes id t r = λ i. (set i, answer i)
    where
      set : contains (tombstone_node nodes id t r).0 ≡ add (contains t) id
      set =
          fun_ext
            (λ y. ap (λ s. contains s y) (tombstone_node-set nodes id t r) ∙ contains-insert t id y)

      answer :
          (tombstone_node nodes id t r).1 ≡ classify (contains t id) (contains_key nodes id) id r
      answer = ground arith

  pub tombstone_nodes-refines :
      (nodes : Nodes) (ids : List String) (t : BTreeSet String) (r : Proto.TombstoneMergeResult)
      → ◌≡◌ {A = (String → Bool) × Proto.TombstoneMergeResult}
          (contains (tombstone_nodes nodes ids t r).0, (tombstone_nodes nodes ids t r).1)
          (Reference.bury_nodes (contains_key nodes) ids (contains t) r)
  unfolding tombstone_nodes Reference.bury_nodes
  tombstone_nodes-refines nodes [] t r = refl
  tombstone_nodes-refines nodes (id ∷ ids) t r =
      let next = tombstone_node nodes id t r in
      let step = tombstone_node-refines nodes id t r in
      tombstone_nodes-refines nodes ids next.0 next.1 ∙ λ i.
      Reference.bury_nodes (contains_key nodes) ids (step i).0 (step i).1

  tombstone_edge-refines :
      (edges : Edges) (id : String) (k : EdgeKey) (t : BTreeSet EdgeKey)
      (r : Proto.TombstoneMergeResult)
      → ◌≡◌ {A = (EdgeKey → Bool) × Proto.TombstoneMergeResult}
          (contains (tombstone_edge edges id k t r).0, (tombstone_edge edges id k t r).1)
          (add (contains t) k, classify (contains t k) (contains_key edges k) id r)
  unfolding edge_key tombstone_edge
  tombstone_edge-refines edges id k t r = λ i. (set i, answer i)
    where
      set : contains (tombstone_edge edges id k t r).0 ≡ add (contains t) k
      set =
          fun_ext (λ y.
            ap (λ s. contains s y) (tombstone_edge-set edges id k t r) ∙ contains-insert t k y)

      answer :
          (tombstone_edge edges id k t r).1 ≡ classify (contains t k) (contains_key edges k) id r
      answer = ground arith

  pub tombstone_edges-refines :
      (edges : Edges) (es : List Proto.EdgeTombstoneEntry) (t : BTreeSet EdgeKey)
      (r : Proto.TombstoneMergeResult)
      → (contains (tombstone_edges edges es t r).0, (tombstone_edges edges es t r).1)
        ≡ Reference.bury_edges (contains_key edges) es (contains t) r
  unfolding tombstone_edges Reference.bury_edges
  tombstone_edges-refines edges [] t r = refl
  tombstone_edges-refines edges (e ∷ es) t r = elim (Result-cases (edge_type_try_from e.type)) [
    | inl (ty, h) ↦
        let k = new_key e.source e.target ty in
        let next = tombstone_edge edges (entry_id e) k t r in
        let step = tombstone_edge-refines edges (entry_id e) k t r in
        rw (h, tombstone_edges, Reference.bury_edges)
          (tombstone_edges-refines edges es next.0 next.1 ∙ λ i.
            Reference.bury_edges (contains_key edges) es (step i).0 (step i).1)
    | inr (f, h) ↦ rw (h, tombstone_edges, Reference.bury_edges)
  ]
