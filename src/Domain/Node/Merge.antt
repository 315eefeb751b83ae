-- ===== src/Domain/Node/Merge.antt =====
-- `NodeLattice::merge` of domain/node.rs, through what the fields reveal.
use tee.Base.{
  ◌≡◌, refl, ap, sym, ◌∙◌, String, Bool, true, false, ◌&&◌, ◌||◌, Option, none, some, arith, Eq,
  is_none, string_eq,
}
use tee.Collections.BTreeSet.{BTreeSet, extend, IsSorted}
use tee.Collections.BTreeSet.Laws.{extend-extend}
use tee.Collections.BTreeSet.Elements.{extend_kept, extend_self}
use tee.Lattices.{Lattices, agree}
use tee.Domain.Types.{NodeType, node_type_eq}
use tee.Domain.Provenance.{Provenance, provenance_ord}
use tee.Domain.Node.{NodeLattice, new, merge, has_conflict}

module _ {T : Type 0} ⦃e : Eq T⦄ where
  agree_again : (a b : Option T) → agree (agree a b) b ≡ agree a b
  agree_again none b = refl
  agree_again (some x) none = refl
  agree_again (some x) (some y) = ground arith

  agree_self : (a : Option T) → agree a a ≡ a
  agree_self none = refl
  agree_self (some x) = ground (arith, (e.beq_iff x x).1 refl)

  agree_kept : (a b c : Option T) → agree a b ≡ a → agree (agree a c) b ≡ agree a c
  agree_kept none b c h = refl
  agree_kept (some x) none c h = cc
  agree_kept (some x) (some y) none h = refl
  agree_kept (some x) (some y) (some z) h = ground arith

  agree_clash :
      (a b c : Option T)
      → is_none (agree a b) ≡ true
      → is_none (agree a c) ≡ false
      → is_none (agree (agree a c) b) ≡ true
  agree_clash none b c h k = refl
  agree_clash (some x) none none h k = refl
  agree_clash (some x) none (some z) h k = ground arith
  agree_clash (some x) (some y) none h k = refl
  agree_clash (some x) (some y) (some z) h k = ground arith

  pub agree_left : (a b : Option T) → is_none (agree a b) ≡ false → agree a b ≡ a
  agree_left none b h = refl
  agree_left (some x) none h = cc
  agree_left (some x) (some y) h = ground arith

  agree-some : (a b : T) {c : T} → agree (some a) (some b) ≡ some c → (a ≡ b) × (c ≡ a)
  agree-some a b h = ground (arith, e.beq_iff a b)

-- The fields of a node lattice as they are revealed.
pub record Revealed : Type 0 where
  pub node_type : Option NodeType
  pub label : Option String
  pub hypothetical : Bool
  pub provenance : BTreeSet Provenance

abbrev pub join : Revealed → Revealed → Revealed
join a b = record {
  node_type = agree a.node_type b.node_type;
  label = agree a.label b.label;
  hypothetical = a.hypothetical && b.hypothetical;
  provenance = extend a.provenance b.provenance;
}

join_again : (a b : Revealed) → join (join a b) b ≡ join a b
join_again a b = λ i. record {
  node_type = agree_again a.node_type b.node_type i;
  label = agree_again a.label b.label i;
  hypothetical = and_again a.hypothetical b.hypothetical i;
  provenance = extend-extend a.provenance b.provenance i;
}
  where
    and_again : (x y : Bool) → (x && y) && y ≡ x && y
    and_again x y = ground arith

join_kept : (a b c : Revealed) → join a b ≡ a → join (join a c) b ≡ join a c
join_kept a b c h = λ i. record {
  node_type = agree_kept a.node_type b.node_type c.node_type (ap (λ r. r.node_type) h) i;
  label = agree_kept a.label b.label c.label (ap (λ r. r.label) h) i;
  hypothetical =
      and_kept a.hypothetical b.hypothetical c.hypothetical (ap (λ r. r.hypothetical) h) i;
  provenance = extend_kept a.provenance b.provenance c.provenance (ap (λ r. r.provenance) h) i;
}
  where
    and_kept : (x y z : Bool) → x && y ≡ x → (x && z) && y ≡ x && z
    and_kept x y z k = ground arith

module _ ⦃L : Lattices⦄ where
  abbrev pub reveal : NodeLattice → Revealed
  reveal n = record {
    node_type = L.conflict_reveal n.node_type;
    label = L.conflict_reveal n.label;
    hypothetical = L.min_reveal n.hypothetical;
    provenance = L.set_reveal n.provenance;
  }

  pub reveal_ext : (a b : NodeLattice) → reveal a ≡ reveal b → a ≡ b
  reveal_ext a b e = λ i. record {
    node_type = L.conflict_ext a.node_type b.node_type (ap (λ r. r.node_type) e) i;
    label = L.conflict_ext a.label b.label (ap (λ r. r.label) e) i;
    hypothetical = L.min_ext a.hypothetical b.hypothetical (ap (λ r. r.hypothetical) e) i;
    provenance = L.set_ext a.provenance b.provenance (ap (λ r. r.provenance) e) i;
  }

  pub reveal-merge : (a b : NodeLattice) → reveal (merge a b).0 ≡ join (reveal a) (reveal b)
  unfolding merge
  reveal-merge a b = λ i. record {
    node_type = L.conflict_reveal-merge a.node_type b.node_type i;
    label = L.conflict_reveal-merge a.label b.label i;
    hypothetical = L.min_reveal-merge a.hypothetical b.hypothetical i;
    provenance = L.set_reveal-merge a.provenance b.provenance i;
  }

  -- Merging the same lattice again changes nothing.
  pub merge_again : (a b : NodeLattice) → (merge (merge a b).0 b).0 ≡ (merge a b).0
  merge_again a b = reveal_ext _ _ (
      reveal-merge (merge a b).0 b
      ∙ ap (λ r. join r (reveal b)) (reveal-merge a b)
      ∙ join_again (reveal a) (reveal b)
      ∙ sym (reveal-merge a b))

  -- What adds nothing to a lattice adds nothing to it after any other merge.
  pub merge_kept :
      (a b c : NodeLattice) → (merge a b).0 ≡ a → (merge (merge a c).0 b).0 ≡ (merge a c).0
  merge_kept a b c h = reveal_ext _ _ (
      reveal-merge (merge a c).0 b
      ∙ ap (λ r. join r (reveal b)) (reveal-merge a c)
      ∙ join_kept (reveal a) (reveal b) (reveal c) (sym (reveal-merge a b) ∙ ap reveal h)
      ∙ sym (reveal-merge a c))

  has_conflict-reveal :
      (n : NodeLattice) → has_conflict n ≡ is_none (reveal n).node_type || is_none (reveal n).label
  unfolding has_conflict
  has_conflict-reveal n = rw (L.conflict_top n.node_type, L.conflict_top n.label)

  pub has_conflict-merge :
      (a b : NodeLattice)
      → has_conflict (merge a b).0
        ≡ is_none (agree (reveal a).node_type (reveal b).node_type)
          || is_none (agree (reveal a).label (reveal b).label)
  has_conflict-merge a b =
      has_conflict-reveal (merge a b).0
      ∙ ap (λ r. is_none r.node_type || is_none r.label) (reveal-merge a b)

  -- A lattice that clashes with one clashes with all that this one becomes.
  pub merge_clash :
      (a b c : NodeLattice)
      → has_conflict (merge a b).0 ≡ true
      → has_conflict (merge a c).0 ≡ false
      → has_conflict (merge (merge a c).0 b).0 ≡ true
  merge_clash a b c h k =
      has_conflict-merge (merge a c).0 b
      ∙ ap
          (λ r.
            is_none (agree r.node_type (reveal b).node_type)
            || is_none (agree r.label (reveal b).label))
          (reveal-merge a c)
      ∙ ground (
        arith,
        has_conflict-merge a b,
        has_conflict-merge a c,
        agree_clash (reveal a).node_type (reveal b).node_type (reveal c).node_type,
        agree_clash (reveal a).label (reveal b).label (reveal c).label,
      )

  -- A lattice whose provenance set is in order is not changed by itself.
  pub merge_self : (a : NodeLattice) → IsSorted (L.set_reveal a.provenance) → (merge a a).0 ≡ a
  merge_self a h = reveal_ext _ _ (reveal-merge a a ∙ joined)
    where
      and_self : (x : Bool) → x && x ≡ x
      and_self x = ground arith

      joined : join (reveal a) (reveal a) ≡ reveal a
      joined = λ i. record {
        node_type = agree_self (reveal a).node_type i;
        label = agree_self (reveal a).label i;
        hypothetical = and_self (reveal a).hypothetical i;
        provenance = extend_self (L.set_reveal a.provenance) h i;
      }

  pub reveal-new :
      (t : NodeType) (l : String) (h : Bool) (p : BTreeSet Provenance)
      → reveal (new t l h p)
        ≡ record { node_type = some t; label = some l; hypothetical = h; provenance = p }
  unfolding new
  reveal-new t l h p = λ i. record {
    node_type = L.conflict_reveal-new t i;
    label = L.conflict_reveal-new l i;
    hypothetical = L.min_reveal-new h i;
    provenance = L.set_reveal-new p i;
  }
