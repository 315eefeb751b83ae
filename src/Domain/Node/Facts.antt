-- ===== src/Domain/Node/Facts.antt =====
-- `NodeLattice::merge` and `has_conflict` of domain/node.rs, as a caller sees them.
use tee.Base.{◌↔◌, ◌≡◌, refl, ap, ◌∙◌, ◌≢◌, String, true, false, not, ◌&&◌, some, arith, string_eq}
use tee.Collections.BTreeSet.{get}
use tee.Collections.BTreeSet.Laws.{get-extend_old}
use tee.Lattices.{Lattices}
use tee.Domain.Types.{NodeType, node_type_eq}
use tee.Domain.Provenance.{Provenance, provenance_ord}
use tee.Domain.Node.{NodeLattice, merge, has_conflict}
use tee.Domain.Node.Merge.{has_conflict-merge, agree_left}

module _ ⦃L : Lattices⦄ where
  -- `merge` returns `false` only if it left the lattice as it was, and `true` only if it changed it.
  pub merge_changed :
      (a b : NodeLattice)
      → ((merge a b).1 ≡ false → (merge a b).0 ≡ a) × ((merge a b).1 ≡ true → (merge a b).0 ≢ a)
  unfolding merge
  merge_changed a b = (same, differs)
    where
      same : (merge a b).1 ≡ false → (merge a b).0 ≡ a
      same h = λ i. record {
        node_type = L.conflict_unchanged a.node_type b.node_type (ground arith) i;
        label = L.conflict_unchanged a.label b.label (ground arith) i;
        hypothetical = L.min_unchanged a.hypothetical b.hypothetical (ground arith) i;
        provenance = L.set_unchanged a.provenance b.provenance (ground arith) i;
      }

      differs : (merge a b).1 ≡ true → (merge a b).0 ≢ a
      differs h e = ground (
        arith,
        L.conflict_changed a.node_type b.node_type,
        L.conflict_changed a.label b.label,
        L.min_changed a.hypothetical b.hypothetical,
        L.set_changed a.provenance b.provenance,
        ap (λ n. n.node_type) e,
        ap (λ n. n.label) e,
        ap (λ n. n.hypothetical) e,
        ap (λ n. n.provenance) e,
      )

  -- The flag of the merge of two node lattices is `false` exactly where the merge is the left one.
  pub merge_node-unchanged : (a b : NodeLattice) → ((merge a b).1 ≡ false) ↔ ((merge a b).0 ≡ a)
  merge_node-unchanged a b = ((merge_changed a b).0, λ h. ground (arith, (merge_changed a b).1))

  -- The merge of two lattices that have a type and a label is in conflict exactly where their types
  -- or their labels differ.
  pub has_conflict-differs :
      (a b : NodeLattice) {t u : NodeType} {l m : String}
      → L.conflict_reveal a.node_type ≡ some t
      → L.conflict_reveal a.label ≡ some l
      → L.conflict_reveal b.node_type ≡ some u
      → L.conflict_reveal b.label ≡ some m
      → has_conflict (merge a b).0 ≡ not (node_type_eq.beq t u && string_eq.beq l m)
  has_conflict-differs a b ta la tb lb = has_conflict-merge a b ∙ rw (ta, la, tb, lb) (ground arith)

  -- What may become of a node: its type and label stay, the flag may fall, and every provenance
  -- entry stays as it is stored.
  pub record Grows (a b : NodeLattice) : Type 0 where
    pub same_type : L.conflict_reveal b.node_type ≡ L.conflict_reveal a.node_type
    pub same_label : L.conflict_reveal b.label ≡ L.conflict_reveal a.label
    stays_confirmed : L.min_reveal a.hypothetical ≡ false → L.min_reveal b.hypothetical ≡ false
    keeps_provenance :
        (p q : Provenance)
        → get (L.set_reveal a.provenance) p ≡ some q
        → get (L.set_reveal b.provenance) p ≡ some q

  pub Grows-refl : (a : NodeLattice) → Grows a a
  Grows-refl a = record {
    same_type = refl;
    same_label = refl;
    stays_confirmed = λ h. h;
    keeps_provenance = λ p q h. h;
  }

  pub Grows-trans : {a b c : NodeLattice} → Grows a b → Grows b c → Grows a c
  Grows-trans g h = record {
    same_type = h.same_type ∙ g.same_type;
    same_label = h.same_label ∙ g.same_label;
    stays_confirmed = λ e. h.stays_confirmed (g.stays_confirmed e);
    keeps_provenance = λ p q e. h.keeps_provenance p q (g.keeps_provenance p q e);
  }

  -- A merge without a conflict only grows.
  pub merge-Grows : (a b : NodeLattice) → has_conflict (merge a b).0 ≡ false → Grows a (merge a b).0
  unfolding merge
  merge-Grows a b h = record {
    same_type =
        L.conflict_reveal-merge a.node_type b.node_type
        ∙ agree_left _ _ (ground (arith, has_conflict-merge a b));
    same_label =
        L.conflict_reveal-merge a.label b.label
        ∙ agree_left _ _ (ground (arith, has_conflict-merge a b));
    stays_confirmed = λ e. L.min_reveal-merge a.hypothetical b.hypothetical ∙ rw e;
    keeps_provenance = λ p q e.
        rw (L.set_reveal-merge a.provenance b.provenance)
          (get-extend_old (L.set_reveal a.provenance) (L.set_reveal b.provenance) p q e);
  }
