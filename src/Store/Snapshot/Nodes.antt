-- ===== src/Store/Snapshot/Nodes.antt =====
-- The nodes of the store as messages, and what the loop over them does.
use tee.Base.{
  pos, ◌≡◌, ◌≢◌, refl, sym, ◌∙◌, String, none, some, ok, [], ◌∷◌, ◌++◌, map, All, All-map, All-imp,
  arith, string_key, inl, inr,
}
use mathlib.Core.List.{append_assoc, append-nil}
use tee.Base.Fold.{fold_all, fold_until-map, fold_all_idle}
use tee.Collections.BTreeMap
use tee.Collections.BTreeMap.{get}
use tee.Collections.BTreeMap.Laws.{
  Before, Before-nil, Before-push, get_beyond, insert_beyond, get_all,
}
use tee.Lattices.{Lattices}
use tee.Proto
use tee.Validation.Spec
use tee.Domain.Types.{NodeType}
use tee.Domain.Node.{NodeLattice}
use tee.Domain.Node.Merge.{merge_self}
use tee.Convert.{proto_node_to_domain, domain_node_to_proto, i32_from_node_type}
use tee.Convert.Facts.{node_round_trip}
use tee.Store.Hypothesis.{merge_nodes}
use tee.Store.Hypothesis.Nodes.{Nodes, put_node, put_node-new, put_node-absorbed, merge_nodes-fold}
use tee.Store.Hypothesis.Replay.{first_error, merge_nodes-error}
use tee.Store.Views.{node_message}
use tee.Store.Invariant.{IsValidNode}
use tee.Store.Invariant.Proven.{messages-IsValid}

i32_from_node_type-ne-zero : (t : NodeType) → i32_from_node_type t ≢ pos 0
unfolding i32_from_node_type
i32_from_node_type-ne-zero t = λ h. ground arith

module _ ⦃L : Lattices⦄ where
  node_message-IsValid :
      (e : String × NodeLattice) → IsValidNode e → Spec.IsValidNode (node_message e)
  unfolding domain_node_to_proto
  node_message-IsValid e v =
      let (entries_some, entries_valid) = messages-IsValid (L.set_reveal e.1.provenance) v.proven in
      record {
        id = v.id;
        type = rw v.type.1 (i32_from_node_type-ne-zero v.type.0);
        label = rw v.label.1 v.label.2;
        provenance = entries_some;
        entries = entries_valid;
      }

  pub messages-IsValidNode :
      (m : Nodes) → All IsValidNode m → All Spec.IsValidNode (map node_message m)
  messages-IsValidNode m h =
      All-map Spec.IsValidNode node_message m (All-imp node_message-IsValid m h)

  converts_back :
      (e : String × NodeLattice) → IsValidNode e → proto_node_to_domain (node_message e) ≡ ok e
  converts_back e v = node_round_trip e.0 e.1 v.type.1 v.label.1 v.proven.sorted

  -- The loop over the messages is the loop over the entries.
  pub merge_nodes-messages :
      (m nodes : Nodes) (r : Proto.HypothesisMergeResult)
      → All IsValidNode m
      → (merge_nodes (map node_message m) nodes r).0 ≡ fold_all put_node m nodes
  merge_nodes-messages m nodes r h =
      merge_nodes-fold (map node_message m) nodes r
      ∙ fold_until-map proto_node_to_domain put_node node_message m nodes
          (All-imp converts_back m h)

  no_error :
      (m : Nodes) → All IsValidNode m → first_error proto_node_to_domain (map node_message m) ≡ none
  no_error [] h = refl
  no_error (e ∷ m) h = rw (converts_back e h.0, first_error) (no_error m h.1)

  pub merge_nodes-snapshot_ok :
      (m nodes : Nodes) (r : Proto.HypothesisMergeResult)
      → All IsValidNode m
      → (q : Proto.HypothesisMergeResult) × ((merge_nodes (map node_message m) nodes r).1 ≡ ok q)
  merge_nodes-snapshot_ok m nodes r h = elim (merge_nodes-error (map node_message m) nodes r) [
    | inl (e, f, g) ↦ absurd (ground (arith, no_error m h))
    | inr (q, f, g) ↦ (q, g)
  ]

  -- An entry of the map adds nothing to it.
  idle :
      (nodes : Nodes) (e : String × NodeLattice)
      → IsValidNode e
      → get nodes e.0 ≡ some e.1
      → put_node e nodes ≡ nodes
  idle nodes e v h = put_node-absorbed e nodes (e.1, h, inr (merge_self e.1 v.proven.sorted))

  pub merge_nodes-snapshot :
      (m : Nodes) (r : Proto.HypothesisMergeResult)
      → BTreeMap.IsSorted m
      → All IsValidNode m
      → (merge_nodes (map node_message m) m r).0 ≡ m
  merge_nodes-snapshot m r s h =
      merge_nodes-messages m m r h ∙ fold_all_idle put_node m m (both m h (get_all m s))
    where
      both :
          (es : Nodes)
          → All IsValidNode es
          → All (λ e. get m e.0 ≡ some e.1) es
          → All (λ e. put_node e m ≡ m) es
      both [] v g = tt
      both (e ∷ es) v g = (idle m e v.0 g.0, both es v.1 g.1)

  put_all :
      (m nodes : Nodes)
      → BTreeMap.IsSorted m
      → Before nodes m
      → fold_all put_node m nodes ≡ nodes ++ m
  unfolding fold_all
  put_all [] nodes s b = sym (append-nil nodes)
  put_all (e ∷ m) nodes s b =
      rw (put_node-new e.0 e.1 nodes (get_beyond nodes e.0 b.0) ∙ insert_beyond nodes e.0 e.1 b.0) (
        put_all m (nodes ++ (e ∷ [])) s.1 (Before-push nodes e m s.0 b.1)
        ∙ append_assoc nodes (e ∷ []) m)

  pub merge_nodes-rebuild :
      (m : Nodes) (r : Proto.HypothesisMergeResult)
      → BTreeMap.IsSorted m
      → All IsValidNode m
      → (merge_nodes (map node_message m) [] r).0 ≡ m
  merge_nodes-rebuild m r s h = merge_nodes-messages m [] r h ∙ put_all m [] s (Before-nil m)
