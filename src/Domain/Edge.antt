-- ===== src/Domain/Edge.antt =====
-- domain/edge.rs: the identity of an edge and its lattice.
pub mod Merge
use tee.Base.{◌≡◌, String, Bool, Ordering, Ord, KeyOrd, string_key, arith, is_nil}
use tee.Base.Order.{lex, pair_key, lex-eq, lex-IsLawful, on-IsLawful, IsLawful}
use tee.Collections.BTreeSet.{BTreeSet}
use tee.Lattices.{Lattices}
use tee.Domain.Types.{EdgeType, edge_type_key}
use tee.Domain.Provenance.{Provenance, provenance_ord}

pub record EdgeKey : Type 0 where
  pub source : String
  pub target : String
  pub edge_type : EdgeType

unfoldable pub new_key : String → String → EdgeType → EdgeKey
new_key source target edge_type = record { source = source; target = target; edge_type = edge_type }

abbrev fields : EdgeKey → String × (String × EdgeType)
fields k = (k.source, (k.target, k.edge_type))

-- `derive(Ord)`: the fields one after the other.
unfoldable pub cmp : EdgeKey → EdgeKey → Ordering
unfolding pair_key
cmp a b = lex (fields a) (fields b)

pub cmp-IsLawful : IsLawful cmp
unfolding cmp
cmp-IsLawful = on-IsLawful fields lex lex-IsLawful

pub cmp-eq : (a b : EdgeKey) → cmp a b ≡ Ordering.eq → a ≡ b
unfolding cmp
cmp-eq a b h =
    let e : fields a ≡ fields b = lex-eq (fields a) (fields b) h in
    λ i. record { source = (e i).0; target = (e i).1.0; edge_type = (e i).1.1 }

instance unfoldable pub edge_ord : Ord EdgeKey
edge_ord = record { cmp = cmp; lawful = cmp-IsLawful }

instance unfoldable pub edge_key : KeyOrd EdgeKey
unfolding edge_ord
edge_key = record { ord = edge_ord; eq_of_cmp = cmp-eq }

module _ ⦃L : Lattices⦄ where
  pub record EdgeLattice : Type 0 where
    pub provenance : L.SetUnion Provenance

  unfoldable pub new : BTreeSet Provenance → EdgeLattice
  new provenance = record { provenance = L.set_new provenance }

  -- `Merge::merge`, with the flag whether anything changed.
  unfoldable pub merge : EdgeLattice → EdgeLattice → EdgeLattice × Bool
  merge a b =
      let (provenance, changed) = L.set_merge a.provenance b.provenance in
      (record { provenance = provenance }, changed)

  -- `IsBot::is_bot`.
  unfoldable pub is_bot : EdgeLattice → Bool
  is_bot a = is_nil (L.set_reveal a.provenance)
