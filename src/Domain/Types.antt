-- ===== src/Domain/Types.antt =====
-- domain/node_type.rs and domain/edge_type.rs: the enumerations, `Display`, and the derived
-- equality and order, which is that of the declaration.
use Prim.Native.Nat.{compare}
use tee.Base.{ℕ, ◌≡◌, ◌↔◌, Bool, true, String, arith, Ordering, Eq, KeyOrd, ◌==◌}
use tee.Base.Order.{IsLawful, on-IsLawful, compare-IsLawful}

pub data NodeType : Type 0 where
  service dependency infrastructure mechanism : NodeType

pub data EdgeType : Type 0 where
  depends_on propagates_to manifests_as : EdgeType

-- `Display`.
abbrev pub show_node_type : NodeType → String
show_node_type service = "SERVICE"
show_node_type dependency = "DEPENDENCY"
show_node_type infrastructure = "INFRASTRUCTURE"
show_node_type mechanism = "MECHANISM"

abbrev pub show_edge_type : EdgeType → String
show_edge_type depends_on = "DEPENDS_ON"
show_edge_type propagates_to = "PROPAGATES_TO"
show_edge_type manifests_as = "MANIFESTS_AS"

abbrev pub node_type_index : NodeType → ℕ
node_type_index service = 0
node_type_index dependency = 1
node_type_index infrastructure = 2
node_type_index mechanism = 3

abbrev pub edge_type_index : EdgeType → ℕ
edge_type_index depends_on = 0
edge_type_index propagates_to = 1
edge_type_index manifests_as = 2

abbrev pub node_type_beq : NodeType → NodeType → Bool
node_type_beq a b = node_type_index a == node_type_index b

pub node_type_beq_iff : (a b : NodeType) → (node_type_beq a b ≡ true) ↔ (a ≡ b)
node_type_beq_iff a b = (λ h. ground arith, λ h. ground arith)

instance abbrev pub node_type_eq : Eq NodeType
node_type_eq = record { beq = node_type_beq; beq_iff = node_type_beq_iff }

abbrev pub edge_type_cmp : EdgeType → EdgeType → Ordering
edge_type_cmp a b = compare (edge_type_index a) (edge_type_index b)

pub edge_type_cmp-IsLawful : IsLawful edge_type_cmp
edge_type_cmp-IsLawful = on-IsLawful edge_type_index compare compare-IsLawful

pub edge_type_cmp-eq : (a b : EdgeType) → edge_type_cmp a b ≡ Ordering.eq → a ≡ b
edge_type_cmp-eq a b h = ground arith

instance unfoldable pub edge_type_key : KeyOrd EdgeType
edge_type_key = record {
  ord = record { cmp = edge_type_cmp; lawful = edge_type_cmp-IsLawful };
  eq_of_cmp = edge_type_cmp-eq;
}
