-- ===== src/Domain/Node.antt =====
-- domain/node.rs: the lattice of a node's fields.
pub mod Merge
pub mod Facts
pub mod Lattice
use tee.Base.{◌≡◌, String, Bool, true, false, ◌||◌, Option, none, some, string_eq, if◌then◌else◌}
use tee.Collections.BTreeSet.{BTreeSet}
use tee.Lattices.{Lattices}
use tee.Domain.Types.{NodeType, node_type_eq}
use tee.Domain.Provenance.{Provenance, provenance_ord}

module _ ⦃L : Lattices⦄ where
  pub record NodeLattice : Type 0 where
    pub node_type : L.Conflict NodeType
    pub label : L.Conflict String
    pub hypothetical : L.Min Bool
    pub provenance : L.SetUnion Provenance

  unfoldable pub new : NodeType → String → Bool → BTreeSet Provenance → NodeLattice
  new node_type label hypothetical provenance = record {
    node_type = L.conflict_new_from node_type;
    label = L.conflict_new_from label;
    hypothetical = L.min_new hypothetical;
    provenance = L.set_new provenance;
  }

  unfoldable pub has_conflict : NodeLattice → Bool
  has_conflict n = L.conflict_is_top n.node_type || L.conflict_is_top n.label

  unfoldable pub conflict_field : NodeLattice → Option String
  conflict_field n =
      if L.conflict_is_top n.node_type
      then some "type"
      else if L.conflict_is_top n.label
      then some "label"
      else none

  -- `Merge::merge`: field by field, with the flag whether any field changed.
  unfoldable pub merge : NodeLattice → NodeLattice → NodeLattice × Bool
  merge a b =
      let (node_type, type_changed) = L.conflict_merge a.node_type b.node_type in
      let (label, label_changed) = L.conflict_merge a.label b.label in
      let (hypothetical, hypothetical_changed) = L.min_merge a.hypothetical b.hypothetical in
      let (provenance, provenance_changed) = L.set_merge a.provenance b.provenance in
      (
        record {
          node_type = node_type;
          label = label;
          hypothetical = hypothetical;
          provenance = provenance;
        },
        type_changed || label_changed || hypothetical_changed || provenance_changed,
      )

  -- `IsBot::is_bot`.
  unfoldable pub is_bot : NodeLattice → Bool
  is_bot n = false
