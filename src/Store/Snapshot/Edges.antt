-- ===== src/Store/Snapshot/Edges.antt =====
-- The edges of the store as messages, and what the loop over them does.
use tee.Base.{pos, ◌≡◌, ◌≢◌, sym, ◌∙◌, some, ok, [], ◌∷◌, ◌++◌, map, All, All-map, All-imp, arith}
use mathlib.Core.List.{append_assoc, append-nil}
use tee.Base.Fold.{fold_all, fold_until-map, fold_all_idle}
use tee.Collections.BTreeMap
use tee.Collections.BTreeMap.{get}
use tee.Collections.BTreeMap.Laws.{
  Before, Before-nil, Before-push, get_beyond, insert_beyond, get_all,
}
use tee.Lattices.{Lattices}
use tee.Proto
use tee.Validation.Spec
use tee.Domain.Types.{EdgeType}
use tee.Domain.Edge.{EdgeKey, EdgeLattice, edge_key}
use tee.Domain.Edge.Merge.{merge_self}
use tee.Convert.{proto_edge_to_domain, domain_edge_to_proto, i32_from_edge_type}
use tee.Convert.Facts.{edge_round_trip}
use tee.Store.Hypothesis.{merge_edges}
use tee.Store.Hypothesis.Edges.{Edges, put_edge, put_edge-new, put_edge-absorbed, merge_edges-fold}
use tee.Store.Views.{edge_message}
use tee.Store.Invariant.{IsValidEdge}
use tee.Store.Invariant.Proven.{messages-IsValid}

i32_from_edge_type-ne-zero : (t : EdgeType) → i32_from_edge_type t ≢ pos 0
unfolding i32_from_edge_type
i32_from_edge_type-ne-zero t = λ h. ground arith

module _ ⦃L : Lattices⦄ where
  edge_message-IsValid :
      (e : EdgeKey × EdgeLattice) → IsValidEdge e → Spec.IsValidEdge (edge_message e)
  unfolding domain_edge_to_proto
  edge_message-IsValid e v =
      let (entries_some, entries_valid) = messages-IsValid (L.set_reveal e.1.provenance) v.proven in
      record {
        source = v.source;
        target = v.target;
        no_loop = v.no_loop;
        type = i32_from_edge_type-ne-zero e.0.edge_type;
        provenance = entries_some;
        entries = entries_valid;
      }

  pub messages-IsValidEdge :
      (m : Edges) → All IsValidEdge m → All Spec.IsValidEdge (map edge_message m)
  messages-IsValidEdge m h =
      All-map Spec.IsValidEdge edge_message m (All-imp edge_message-IsValid m h)

  converts_back :
      (e : EdgeKey × EdgeLattice) → IsValidEdge e → proto_edge_to_domain (edge_message e) ≡ ok e
  converts_back e v = edge_round_trip e.0 e.1 v.proven.sorted

  -- The loop over the messages is the loop over the entries.
  pub merge_edges-messages :
      (m edges : Edges) (r : Proto.HypothesisMergeResult)
      → All IsValidEdge m
      → (merge_edges (map edge_message m) edges r).0 ≡ fold_all put_edge m edges
  merge_edges-messages m edges r h =
      merge_edges-fold (map edge_message m) edges r
      ∙ fold_until-map proto_edge_to_domain put_edge edge_message m edges
          (All-imp converts_back m h)

  -- An entry of the map adds nothing to it.
  idle :
      (edges : Edges) (e : EdgeKey × EdgeLattice)
      → IsValidEdge e
      → get edges e.0 ≡ some e.1
      → put_edge e edges ≡ edges
  idle edges e v h = put_edge-absorbed e edges (e.1, h, merge_self e.1 v.proven.sorted)

  pub merge_edges-snapshot :
      (m : Edges) (r : Proto.HypothesisMergeResult)
      → BTreeMap.IsSorted m
      → All IsValidEdge m
      → (merge_edges (map edge_message m) m r).0 ≡ m
  merge_edges-snapshot m r s h =
      merge_edges-messages m m r h ∙ fold_all_idle put_edge m m (both m h (get_all m s))
    where
      both :
          (es : Edges)
          → All IsValidEdge es
          → All (λ e. get m e.0 ≡ some e.1) es
          → All (λ e. put_edge e m ≡ m) es
      both [] v g = tt
      both (e ∷ es) v g = (idle m e v.0 g.0, both es v.1 g.1)

  put_all :
      (m edges : Edges)
      → BTreeMap.IsSorted m
      → Before edges m
      → fold_all put_edge m edges ≡ edges ++ m
  unfolding fold_all
  put_all [] edges s b = sym (append-nil edges)
  put_all (e ∷ m) edges s b =
      rw (put_edge-new e.0 e.1 edges (get_beyond edges e.0 b.0) ∙ insert_beyond edges e.0 e.1 b.0) (
        put_all m (edges ++ (e ∷ [])) s.1 (Before-push edges e m s.0 b.1)
        ∙ append_assoc edges (e ∷ []) m)

  pub merge_edges-rebuild :
      (m : Edges) (r : Proto.HypothesisMergeResult)
      → BTreeMap.IsSorted m
      → All IsValidEdge m
      → (merge_edges (map edge_message m) [] r).0 ≡ m
  merge_edges-rebuild m r s h = merge_edges-messages m [] r h ∙ put_all m [] s (Before-nil m)
