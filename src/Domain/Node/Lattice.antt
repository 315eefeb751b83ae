-- ===== src/Domain/Node/Lattice.antt =====
-- `NodeLattice::merge` of domain/node.rs, as an operation on two and three lattices.
use tee.Base.{◌≡◌, refl, ap, sym, ◌∙◌, ◌&&◌, Option, none, some, Bool, arith, Eq, string_eq}
use tee.Collections.BTreeSet.{contains, IsSorted}
use tee.Collections.BTreeSet.Laws.{contains-extend}
use tee.Collections.BTreeSet.Elements.{contains-has}
use tee.Collections.BTreeSet.Joins.{extend_assoc}
use tee.Lattices.{Lattices, agree}
use tee.Domain.Types.{node_type_eq}
use tee.Domain.Provenance.{Provenance, provenance_ord}
use tee.Domain.Node.{NodeLattice, merge}
use tee.Domain.Node.Merge.{Revealed, join, reveal, reveal_ext, reveal-merge}

module _ {T : Type 0} ⦃e : Eq T⦄ where
  agree_comm : (a b : Option T) → agree a b ≡ agree b a
  agree_comm none none = refl
  agree_comm none (some y) = refl
  agree_comm (some x) none = refl
  agree_comm (some x) (some y) = ground (arith, e.beq_iff x y, e.beq_iff y x)

  agree_assoc : (a b c : Option T) → agree (agree a b) c ≡ agree a (agree b c)
  agree_assoc none b c = refl
  agree_assoc (some x) none c = refl
  agree_assoc (some x) (some y) none = ground arith
  agree_assoc (some x) (some y) (some z) =
      ground (arith, e.beq_iff x y, e.beq_iff x z, e.beq_iff y z)

and_assoc : (a b c : Bool) → (a && b) && c ≡ a && (b && c)
and_assoc a b c = ground arith

and_comm : (a b : Bool) → a && b ≡ b && a
and_comm a b = ground arith

join_assoc :
    (a b c : Revealed)
    → IsSorted a.provenance
    → IsSorted b.provenance
    → join (join a b) c ≡ join a (join b c)
join_assoc a b c ha hb = λ i. record {
  node_type = agree_assoc a.node_type b.node_type c.node_type i;
  label = agree_assoc a.label b.label c.label i;
  hypothetical = and_assoc a.hypothetical b.hypothetical c.hypothetical i;
  provenance = extend_assoc a.provenance b.provenance c.provenance ha hb i;
}

module _ ⦃L : Lattices⦄ where
  -- The merge of three node lattices does not depend on which two are merged first, the timestamps
  -- of their provenance included. The provenance of the first two is in order.
  pub merge_assoc :
      (a b c : NodeLattice)
      → IsSorted (L.set_reveal a.provenance)
      → IsSorted (L.set_reveal b.provenance)
      → (merge (merge a b).0 c).0 ≡ (merge a (merge b c).0).0
  merge_assoc a b c ha hb = reveal_ext _ _ (
      reveal-merge (merge a b).0 c
      ∙ ap (λ r. join r (reveal c)) (reveal-merge a b)
      ∙ join_assoc (reveal a) (reveal b) (reveal c) ha hb
      ∙ ap (join (reveal a)) (sym (reveal-merge b c))
      ∙ sym (reveal-merge a (merge b c).0))

  -- Two lattices reveal the same type, label and flag, and the same pairs of source and trigger.
  pub record Agree (a b : NodeLattice) : Type 0 where
    pub node_type : L.conflict_reveal a.node_type ≡ L.conflict_reveal b.node_type
    pub label : L.conflict_reveal a.label ≡ L.conflict_reveal b.label
    pub hypothetical : L.min_reveal a.hypothetical ≡ L.min_reveal b.hypothetical
    pub provenance :
        (p : Provenance)
        → contains (L.set_reveal a.provenance) p ≡ contains (L.set_reveal b.provenance) p

  -- Merging two node lattices in either order gives the same type, label and flag, conflicts
  -- included, and the same provenance up to timestamps. The provenance of both is in order.
  pub merge_comm :
      (a b : NodeLattice)
      → IsSorted (L.set_reveal a.provenance)
      → IsSorted (L.set_reveal b.provenance)
      → Agree (merge a b).0 (merge b a).0
  merge_comm a b ha hb =
      let s = L.set_reveal a.provenance in
      let t = L.set_reveal b.provenance in
      record {
        node_type =
            ap (λ r. r.node_type) (reveal-merge a b)
            ∙ agree_comm (L.conflict_reveal a.node_type) (L.conflict_reveal b.node_type)
            ∙ sym (ap (λ r. r.node_type) (reveal-merge b a));
        label =
            ap (λ r. r.label) (reveal-merge a b)
            ∙ agree_comm (L.conflict_reveal a.label) (L.conflict_reveal b.label)
            ∙ sym (ap (λ r. r.label) (reveal-merge b a));
        hypothetical =
            ap (λ r. r.hypothetical) (reveal-merge a b)
            ∙ and_comm (L.min_reveal a.hypothetical) (L.min_reveal b.hypothetical)
            ∙ sym (ap (λ r. r.hypothetical) (reveal-merge b a));
        provenance = λ p.
            ap (λ r. contains r.provenance p) (reveal-merge a b)
            ∙ ground (
              arith,
              contains-extend s t p,
              contains-extend t s p,
              contains-has s p ha,
              contains-has t p hb,
            )
            ∙ sym (ap (λ r. contains r.provenance p) (reveal-merge b a));
      }
