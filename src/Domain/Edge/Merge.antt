-- ===== src/Domain/Edge/Merge.antt =====
-- `EdgeLattice::merge` of domain/edge.rs, through the provenance set.
use tee.Base.{◌↔◌, arith, ◌≡◌, ◌≢◌, ap, sym, ◌∙◌, true, false, some}
use tee.Collections.BTreeSet.{BTreeSet, get, extend, IsSorted}
use tee.Collections.BTreeSet.Laws.{extend-extend, get-extend_old}
use tee.Collections.BTreeSet.Elements.{extend_kept, extend_self}
use tee.Lattices.{Lattices}
use tee.Domain.Provenance.{Provenance, provenance_ord}
use tee.Domain.Edge.{EdgeLattice, new, merge}

module _ ⦃L : Lattices⦄ where
  abbrev pub entries : EdgeLattice → BTreeSet Provenance
  entries a = L.set_reveal a.provenance

  pub entries_ext : (a b : EdgeLattice) → entries a ≡ entries b → a ≡ b
  entries_ext a b e = λ i. record { provenance = L.set_ext a.provenance b.provenance e i }

  pub entries-merge : (a b : EdgeLattice) → entries (merge a b).0 ≡ extend (entries a) (entries b)
  unfolding merge
  entries-merge a b = L.set_reveal-merge a.provenance b.provenance

  pub merge_again : (a b : EdgeLattice) → (merge (merge a b).0 b).0 ≡ (merge a b).0
  merge_again a b = entries_ext _ _ (
      entries-merge (merge a b).0 b
      ∙ ap (λ s. extend s (entries b)) (entries-merge a b)
      ∙ extend-extend (entries a) (entries b)
      ∙ sym (entries-merge a b))

  pub merge_kept :
      (a b c : EdgeLattice) → (merge a b).0 ≡ a → (merge (merge a c).0 b).0 ≡ (merge a c).0
  merge_kept a b c h = entries_ext _ _ (
      entries-merge (merge a c).0 b
      ∙ ap (λ s. extend s (entries b)) (entries-merge a c)
      ∙ extend_kept (entries a) (entries b) (entries c) (sym (entries-merge a b) ∙ ap entries h)
      ∙ sym (entries-merge a c))

  pub merge_self : (a : EdgeLattice) → IsSorted (entries a) → (merge a a).0 ≡ a
  merge_self a h = entries_ext _ _ (entries-merge a a ∙ extend_self (entries a) h)

  -- `merge` returns `false` only if it left the lattice as it was, and `true` only if it changed it.
  pub merge_changed :
      (a b : EdgeLattice)
      → ((merge a b).1 ≡ false → (merge a b).0 ≡ a) × ((merge a b).1 ≡ true → (merge a b).0 ≢ a)
  unfolding merge
  merge_changed a b = (
    λ h i. record { provenance = L.set_unchanged a.provenance b.provenance h i },
    λ h e. L.set_changed a.provenance b.provenance h (ap (λ n. n.provenance) e),
  )

  -- The flag of the merge of two edge lattices is `false` exactly where the merge is the left one.
  merge_edge-unchanged : (a b : EdgeLattice) → ((merge a b).1 ≡ false) ↔ ((merge a b).0 ≡ a)
  merge_edge-unchanged a b = ((merge_changed a b).0, λ h. ground (arith, (merge_changed a b).1))

  -- What may become of an edge: every provenance entry stays as it is stored.
  abbrev pub Grows : EdgeLattice → EdgeLattice → Type 0
  Grows a b = (p q : Provenance) → get (entries a) p ≡ some q → get (entries b) p ≡ some q

  pub merge-Grows : (a b : EdgeLattice) → Grows a (merge a b).0
  merge-Grows a b p q h = rw (entries-merge a b) (get-extend_old (entries a) (entries b) p q h)

  pub entries-new : (p : BTreeSet Provenance) → entries (new p) ≡ p
  unfolding new
  entries-new p = L.set_reveal-new p
