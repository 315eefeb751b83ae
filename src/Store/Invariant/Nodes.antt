-- ===== src/Store/Invariant/Nodes.antt =====
-- The loop over the nodes of a delta, and the invariant of the nodes.
use tee.Base.{◌≡◌, sym, ap, ◌∙◌, String, false, List, All, string_key, ok}
use tee.Base.Fold.{fold_until-keeps}
use tee.Collections.BTreeMap
use tee.Collections.BTreeMap.{get, insert}
use tee.Collections.BTreeMap.Laws.{All-insert, get-All, insert-IsSorted}
use tee.Lattices.{Lattices}
use tee.Proto
use tee.Validation.Spec
use tee.Domain.Provenance.{provenance_ord}
use tee.Domain.Node
use tee.Domain.Node.{NodeLattice}
use tee.Domain.Node.Merge.{reveal, reveal-new, reveal-merge}
use tee.Domain.Node.Facts.{merge-Grows}
use tee.Convert.{proto_node_to_domain}
use tee.Convert.Facts.{proto_node_to_domain-parts}
use tee.Store.Hypothesis.{merge_nodes}
use tee.Store.Hypothesis.Nodes.{Nodes, put_node, put_node_cases, merge_nodes-fold}
use tee.Store.Invariant.{IsValidNode}
use tee.Store.Invariant.Proven.{collected-IsProven, extend-IsProven}

module _ ⦃L : Lattices⦄ where
  -- A valid message converts to a valid entry.
  converted-IsValidNode :
      (node : Proto.Node) (e : String × NodeLattice)
      → Spec.IsValidNode node
      → proto_node_to_domain node ≡ ok e
      → IsValidNode e
  converted-IsValidNode node (id, n) v h =
      let (t, _, same_id, e) = proto_node_to_domain-parts node h in
      let shown : reveal n ≡ _ = ap reveal e ∙ reveal-new t node.label node.hypothetical _ in
      record {
        id = λ z. v.id (sym same_id ∙ z);
        type = (t, ap (λ r. r.node_type) shown);
        label = (node.label, ap (λ r. r.label) shown, v.label);
        proven =
            rw (ap (λ r. r.provenance) shown)
              (collected-IsProven node.provenance v.entries v.provenance);
      }

  -- Merging two valid entries of one id without a conflict gives a valid entry.
  merged-IsValidNode :
      (id : String) (a b : NodeLattice)
      → IsValidNode (id, a)
      → IsValidNode (id, b)
      → Node.has_conflict (Node.merge a b).0 ≡ false
      → IsValidNode (id, (Node.merge a b).0)
  merged-IsValidNode id a b va vb h =
      let grown = merge-Grows a b h in
      record {
        id = va.id;
        type = (va.type.0, grown.same_type ∙ va.type.1);
        label = (va.label.0, grown.same_label ∙ va.label.1, va.label.2);
        proven =
            rw (ap (λ r. r.provenance) (reveal-merge a b))
              (extend-IsProven _ _ va.proven vb.proven);
      }

  abbrev ValidNodes : Nodes → Type 0
  ValidNodes nodes = BTreeMap.IsSorted nodes × All IsValidNode nodes

  put_node-IsValid :
      (e : String × NodeLattice) (nodes : Nodes)
      → IsValidNode e
      → ValidNodes nodes
      → ValidNodes (put_node e nodes)
  put_node-IsValid (id, l) nodes v (s, h) =
      put_node_cases ValidNodes id l nodes
        (λ _. (insert-IsSorted nodes id l s, All-insert IsValidNode nodes id l v h))
        (λ a g c. (s, h))
        (λ a g c. (
          insert-IsSorted nodes id _ s,
          All-insert IsValidNode nodes id _
              (merged-IsValidNode id a l (get-All IsValidNode nodes id a h g) v c) h,
        ))

  pub merge_nodes-IsValid :
      (ns : List Proto.Node) (nodes : Nodes) (r : Proto.HypothesisMergeResult)
      → All Spec.IsValidNode ns
      → BTreeMap.IsSorted nodes × All IsValidNode nodes
      → BTreeMap.IsSorted (merge_nodes ns nodes r).0 × All IsValidNode (merge_nodes ns nodes r).0
  merge_nodes-IsValid ns nodes r q h = rw (merge_nodes-fold ns nodes r) (
      fold_until-keeps Spec.IsValidNode ValidNodes proto_node_to_domain put_node
        (λ node e m v c. put_node-IsValid e m (converted-IsValidNode node e v c)) ns nodes q h)
