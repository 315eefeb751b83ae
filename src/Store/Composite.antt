-- ===== src/Store/Composite.antt =====
-- store/memory.rs merges element by element, domain/graph.rs whole maps.
use tee.Base.{
  is_nil, subst, ◌∷◌, KeyOrd, ◌≢◌, ◌≡◌, refl, ap, sym, ◌∙◌, inl, inr, String, false, Option, none,
  some, List, [], arith, All, All-true, All-imp, Option-cases, Bool-cases, string_key,
  if◌then◌else◌,
}
use tee.Collections.BTreeSet.{is_eq}
use tee.Collections.BTreeMap.{BTreeMap, get, get-insert, insert_same, IsSorted}
use tee.Collections.BTreeMap.Pointwise.{absorb_all, get-fold_all}
use tee.Lattices.{Lattices, Merge, join}
use tee.Domain.Node
use tee.Domain.Node.{NodeLattice}
use tee.Domain.Edge
use tee.Domain.Edge.{EdgeKey, EdgeLattice, edge_key}
use tee.Domain.Graph.{node_merge, edge_merge}
use tee.Store.State.{InnerState}
use tee.Store.Hypothesis.{merge_hypothesis, no_results}
use tee.Store.Hypothesis.Nodes.{Nodes, put_node, put_node-new, put_node-clash, put_node-merge}
use tee.Store.Hypothesis.Edges.{Edges, put_edge, put_edge_cases}
use tee.Store.Hypothesis.Replay.{merge_hypothesis-merged}
use tee.Store.Snapshot.{as_delta, main_graph}
use tee.Store.Snapshot.Nodes.{merge_nodes-messages, merge_nodes-snapshot_ok}
use tee.Store.Snapshot.Edges.{merge_edges-messages}
use tee.Store.Invariant.{IsValid, IsValidNode, IsValidEdge}

module _ ⦃L : Lattices⦄ where
  -- The store keeps what it has where the composite merge finds a conflict.
  abbrev pub settle : Option NodeLattice → Option NodeLattice → Option NodeLattice
  settle none c = c
  settle (some a) none = some a
  settle (some a) (some c) = if Node.has_conflict c then some a else some c

  abbrev absorb : Option NodeLattice → NodeLattice → Option NodeLattice
  absorb x l = settle x (join x (some l))

  get-put_node :
      (e : String × NodeLattice) (nodes : Nodes) (j : String)
      → Unit {0}
      → get (put_node e nodes) j
        ≡ (if is_eq (string_key.cmp j e.0) then absorb (get nodes e.0) e.1 else get nodes j)
  get-put_node (k, l) nodes j _ = elim (Option-cases (get nodes k)) [
    | inl g ↦ rw (put_node-new k l nodes g, g) (get-insert nodes k l j)
    | inr (a, g) ↦ elim (Bool-cases (Node.has_conflict (Node.merge a l).0)) [
      | inl c ↦
          rw (put_node-clash k l nodes g c, g, settle, c)
            (ap (λ m. get m j) (sym (insert_same nodes k a g)) ∙ get-insert nodes k a j)
      | inr c ↦ rw (put_node-merge k l nodes g c, g, settle, c) (get-insert nodes k _ j)
    ]
  ]

  get-put_edge :
      (e : EdgeKey × EdgeLattice) (edges : Edges) (j : EdgeKey)
      → Unit {0}
      → get (put_edge e edges) j
        ≡ (if is_eq (edge_key.cmp j e.0) then join (get edges e.0) (some e.1) else get edges j)
  get-put_edge (k, l) edges j _ =
      put_edge_cases
        (λ m.
          get m j ≡ (if is_eq (edge_key.cmp j k) then join (get edges k) (some l) else get edges j))
        k l edges (λ g. rw g (get-insert edges k l j)) (λ a g. rw g (get-insert edges k _ j))

  absorb_nodes : (x y : Option NodeLattice) → absorb_all absorb x y ≡ settle x (join x y)
  absorb_nodes none none = refl
  absorb_nodes (some a) none = ground arith
  absorb_nodes x (some b) = refl

  absorb_edges : (x y : Option EdgeLattice) → absorb_all (λ a l. join a (some l)) x y ≡ join x y
  absorb_edges none none = refl
  absorb_edges (some a) none = refl
  absorb_edges x (some b) = refl

  is_nil-false {ℓ} : {A : Type ℓ} (l : List A) → l ≢ [] → is_nil l ≡ false
  is_nil-false [] h = absurd (h refl)
  is_nil-false (x ∷ l) h = refl

  node_never_bot : (e : String × NodeLattice) → IsValidNode e → Node.is_bot e.1 ≡ false
  unfolding Node.is_bot
  node_never_bot e v = refl

  edge_never_bot : (e : EdgeKey × EdgeLattice) → IsValidEdge e → Edge.is_bot e.1 ≡ false
  unfolding Edge.is_bot
  edge_never_bot e v =
      ground (arith, is_nil-false (L.set_reveal e.1.provenance) v.proven.some_entry)

  -- The crate's merge of two maps that are wrapped for it.
  get-map_merge :
      {K V : Type 0} ⦃o : KeyOrd K⦄ ⦃m : Merge V⦄ (c d : BTreeMap K V) (k : K)
      → IsSorted c
      → IsSorted d
      → All (λ e. m.is_bot e.1 ≡ false) d
      → get (L.map_reveal (L.map_merge (L.map_new c) (L.map_new d)).0) k ≡ join (get c k) (get d k)
  get-map_merge ⦃o⦄ ⦃m⦄ c d k hc hd h =
      L.map_reveal-merge (L.map_new c) (L.map_new d) k
        (subst IsSorted (sym (L.map_reveal-new c)) hc)
        (subst IsSorted (sym (L.map_reveal-new d)) hd)
        (subst (All λ e. m.is_bot e.1 ≡ false) (sym (L.map_reveal-new d)) h)
      ∙ λ i. join (get (L.map_reveal-new c i) k) (get (L.map_reveal-new d i) k)

  -- The main graph of a valid store, sent to any valid store as a delta, makes of each node and each edge
  -- what the composite merge of the two node maps and of the two edge maps makes of it, except that
  -- a node with which the composite merge ends in conflict stays as the store has it.
  pub merge_hypothesis-composite :
      (s t : InnerState)
      → IsValid s
      → IsValid t
      → ((id : String)
          → get (merge_hypothesis (as_delta (main_graph t)) s).0.nodes id
            ≡ settle
                (get s.nodes id)
                (get (L.map_reveal (L.map_merge (L.map_new s.nodes) (L.map_new t.nodes)).0) id))
        × ((k : EdgeKey)
            → get (merge_hypothesis (as_delta (main_graph t)) s).0.edges k
              ≡ get (L.map_reveal (L.map_merge (L.map_new s.edges) (L.map_new t.edges)).0) k)
  merge_hypothesis-composite s t u v =
      let (r, h) = merge_nodes-snapshot_ok t.nodes s.nodes no_results v.nodes_valid in
      let merged = merge_hypothesis-merged (as_delta (main_graph t)) s h in
      (
        (λ id.
            ap (λ o. get o.0.nodes id) merged
            ∙ ap (λ m. get m id) (merge_nodes-messages t.nodes s.nodes no_results v.nodes_valid)
            ∙ get-fold_all absorb put_node (λ e. Unit {0}) get-put_node t.nodes s.nodes id
                v.nodes_sorted (All-true t.nodes)
            ∙ absorb_nodes (get s.nodes id) (get t.nodes id)
            ∙ ap (settle (get s.nodes id)) (
                sym (
                  get-map_merge s.nodes t.nodes id u.nodes_sorted v.nodes_sorted
                    (All-imp node_never_bot t.nodes v.nodes_valid)))),
        (λ k.
            ap (λ o. get o.0.edges k) merged
            ∙ ap (λ m. get m k) (merge_edges-messages t.edges s.edges r v.edges_valid)
            ∙ get-fold_all (λ a l. join a (some l)) put_edge (λ e. Unit {0}) get-put_edge t.edges
                s.edges k v.edges_sorted (All-true t.edges)
            ∙ absorb_edges (get s.edges k) (get t.edges k)
            ∙ sym (
                get-map_merge s.edges t.edges k u.edges_sorted v.edges_sorted
                  (All-imp edge_never_bot t.edges v.edges_valid))),
      )
