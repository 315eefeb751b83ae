-- ===== src/Store/Tombstones/Nodes.antt =====
-- The loop over the node ids: the set that it leaves, and the three lists that it reports.

use tee.Base.{
  ◌+◌, ◌≡◌, refl, ap, ◌∙◌, inl, inr, String, not, ◌&&◌, ◌||◌, List, [], ◌∷◌, arith, string_ord,
  string_key, length, length-push,
}
use tee.Base.Text.{compare-eq}
use tee.Collections.BTreeSet
use tee.Collections.BTreeSet.{BTreeSet, contains, extend, insert_present, contains-insert, is_eq}
use tee.Collections.BTreeSet.Laws.{has}
use tee.Collections.BTreeSet.Elements.{has-push}
use tee.Collections.BTreeMap.{contains_key}
use tee.Collections.BTreeMap.Laws.{Key-cases}
use tee.Lattices.{Lattices}
use tee.Proto
use tee.Store.Hypothesis.Nodes.{Nodes}
use tee.Store.Tombstones.{tombstone_node, tombstone_nodes}

module _ ⦃L : Lattices⦄ where
  pub tombstone_node-set :
      (nodes : Nodes) (id : String) (t : BTreeSet String) (r : Proto.TombstoneMergeResult)
      → (tombstone_node nodes id t r).0 ≡ BTreeSet.insert t id
  unfolding tombstone_node
  tombstone_node-set nodes id t r = ground (arith, insert_present t id)

  -- The loop extends the set by the ids.
  pub tombstone_nodes-set :
      (nodes : Nodes) (ids : List String) (t : BTreeSet String) (r : Proto.TombstoneMergeResult)
      → (tombstone_nodes nodes ids t r).0 ≡ extend t ids
  unfolding tombstone_nodes extend
  tombstone_nodes-set nodes [] t r = refl
  tombstone_nodes-set nodes (id ∷ ids) t r =
      tombstone_nodes-set nodes ids (tombstone_node nodes id t r).0 (tombstone_node nodes id t r).1
      ∙ ap (λ s. extend s ids) (tombstone_node-set nodes id t r)

  -- What the loop adds to the three lists.
  pub record Reports (nodes : Nodes) (ids : List String) (t : BTreeSet String)
      (r r' : Proto.TombstoneMergeResult) : Type 0 where
    pub applied :
        (y : String)
        → has r'.applied_ids y
          ≡ has r.applied_ids y || has ids y && not (contains t y) && contains_key nodes y
    pub unmatched :
        (y : String)
        → has r'.unmatched_ids y
          ≡ has r.unmatched_ids y || has ids y && not (contains t y) && not (contains_key nodes y)
    pub counted :
        length r'.applied_ids + length r'.already_tombstoned_ids + length r'.unmatched_ids
        ≡ length r.applied_ids
          + length r.already_tombstoned_ids
          + length r.unmatched_ids
          + length ids

  -- One id, on each of the three branches.
  tombstone_node-Reports :
      (nodes : Nodes) (id : String) (t : BTreeSet String) (r : Proto.TombstoneMergeResult)
      → Reports nodes (id ∷ []) t r (tombstone_node nodes id t r).1
  unfolding tombstone_node
  tombstone_node-Reports nodes id t r = record {
    applied = λ y. elim (Key-cases y id) [
      | inl same ↦ rw same (ground (arith, has-push r.applied_ids id id, string_ord.cmp_refl id))
      | inr other ↦ ground (arith, has-push r.applied_ids id y, compare-eq y id)
    ];
    unmatched = λ y. elim (Key-cases y id) [
      | inl same ↦ rw same (ground (arith, has-push r.unmatched_ids id id, string_ord.cmp_refl id))
      | inr other ↦ ground (arith, has-push r.unmatched_ids id y, compare-eq y id)
    ];
    counted = ground (
      arith,
      length-push r.applied_ids id,
      length-push r.already_tombstoned_ids id,
      length-push r.unmatched_ids id,
    );
  }

  Reports-cons :
      (nodes : Nodes) (id : String) (ids : List String) (t : BTreeSet String)
      (r q r' : Proto.TombstoneMergeResult)
      → Reports nodes (id ∷ []) t r q
      → Reports nodes ids (BTreeSet.insert t id) q r'
      → Reports nodes (id ∷ ids) t r r'
  Reports-cons nodes id ids t r q r' h k = record {
    applied = λ y. ground (arith, h.applied y, k.applied y, contains-insert t id y);
    unmatched = λ y. ground (arith, h.unmatched y, k.unmatched y, contains-insert t id y);
    counted = ground (arith, h.counted, k.counted);
  }

  pub tombstone_nodes-Reports :
      (nodes : Nodes) (ids : List String) (t : BTreeSet String) (r : Proto.TombstoneMergeResult)
      → Reports nodes ids t r (tombstone_nodes nodes ids t r).1
  unfolding tombstone_nodes
  tombstone_nodes-Reports nodes [] t r = record {
    applied = λ y. ground arith;
    unmatched = λ y. ground arith;
    counted = omega arith;
  }
  tombstone_nodes-Reports nodes (id ∷ ids) t r =
      let next = tombstone_node nodes id t r in
      Reports-cons nodes id ids t r next.1 _ (tombstone_node-Reports nodes id t r)
        (rw (← tombstone_node-set nodes id t r) (tombstone_nodes-Reports nodes ids next.0 next.1))
