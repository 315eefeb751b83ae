-- ===== src/Examples/Tests/Edge.antt =====
-- The tests of domain/edge.rs.
use tee.Base.{◌≡◌, refl, ◌==◌, Bool, true, not, ◌&&◌, String, [], ◌∷◌, length, string_key}
use tee.Collections.BTreeSet.{BTreeSet, from_iter, extend, replace, insert}
use tee.Domain.Types.{depends_on, propagates_to, edge_type_key}
use tee.Domain.Provenance
use tee.Domain.Provenance.{Provenance, provenance_ord}
use tee.Domain.Edge
use tee.Domain.Edge.{EdgeKey, EdgeLattice, edge_ord, edge_key}
use tee.Examples.Model.{lattices}
use tee.Examples.Tests.Run.{is_lt, list_eq, all_hold}

abbrev prov : String → String → Provenance
prov source trigger = Provenance.new source trigger

-- `BTreeSet::from([..])` of one entry.
abbrev set_of : String → String → BTreeSet Provenance
set_of source trigger = from_iter (prov source trigger ∷ [])

abbrev merge_accumulates_provenance : Bool
merge_accumulates_provenance =
    let (a, changed) = Edge.merge (Edge.new (set_of "a" "t1")) (Edge.new (set_of "b" "t2")) in
    changed && length (lattices.set_reveal a.provenance) == 2

abbrev merge_idempotent : Bool
merge_idempotent =
    let (a, changed) = Edge.merge (Edge.new (set_of "a" "t1")) (Edge.new (set_of "a" "t1")) in
    not changed && length (lattices.set_reveal a.provenance) == 1

abbrev merge_commutative : Bool
merge_commutative =
    let ab = (Edge.merge (Edge.new (set_of "a" "t1")) (Edge.new (set_of "b" "t2"))).0 in
    let ba = (Edge.merge (Edge.new (set_of "b" "t2")) (Edge.new (set_of "a" "t1"))).0 in
    list_eq Provenance.eq (lattices.set_reveal ab.provenance) (lattices.set_reveal ba.provenance)

abbrev edge_key_ordering : Bool
edge_key_ordering =
    let k1 = Edge.new_key "a" "b" depends_on in
    let k2 = Edge.new_key "a" "b" propagates_to in
    let k3 = Edge.new_key "a" "c" depends_on in is_lt (Edge.cmp k1 k2) && is_lt (Edge.cmp k1 k3)

abbrev empty_edge_is_bot : Bool
empty_edge_is_bot = Edge.is_bot (Edge.new [])

abbrev non_empty_edge_is_not_bot : Bool
non_empty_edge_is_not_bot = not (Edge.is_bot (Edge.new (set_of "a" "t")))

tests_pass :
    all_hold (
      merge_accumulates_provenance ∷ merge_idempotent ∷ merge_commutative ∷ edge_key_ordering
      ∷ empty_edge_is_bot ∷ non_empty_edge_is_not_bot ∷ [])
    ≡ true
unfolding Edge.new Edge.merge Edge.is_bot Edge.new_key Edge.cmp edge_type_key Provenance.new
    Provenance.eq Provenance.cmp from_iter extend replace insert provenance_ord string_key
tests_pass = refl
