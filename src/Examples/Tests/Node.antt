-- ===== src/Examples/Tests/Node.antt =====
-- The tests of domain/node.rs.
use tee.Base.{
  ◌≡◌, refl, ◌==◌, Bool, true, false, not, ◌&&◌, String, Option, none, some, List, [], ◌∷◌, map,
  length, string_eq, string_key,
}
use tee.Collections.BTreeSet.{BTreeSet, from_iter, extend, replace, insert}
use tee.Domain.Types.{service, infrastructure, node_type_eq}
use tee.Domain.Provenance
use tee.Domain.Provenance.{Provenance, provenance_ord}
use tee.Domain.Node
use tee.Domain.Node.{NodeLattice}
use tee.Examples.Model.{lattices}
use tee.Examples.Tests.Run.{list_eq, all_hold}

abbrev pub prov : String → String → Provenance
prov source trigger = Provenance.new source trigger

abbrev pub prov_set : List (String × String) → BTreeSet Provenance
prov_set entries = from_iter (map (λ e. prov e.0 e.1) entries)

abbrev merge_idempotent_no_change : Bool
merge_idempotent_no_change =
    let a = Node.new service "api-gateway" true (prov_set (("agent-1", "alert-fired") ∷ [])) in
    let b = Node.new service "api-gateway" true (prov_set (("agent-1", "alert-fired") ∷ [])) in
    let (a', changed) = Node.merge a b in not changed && not (Node.has_conflict a')

abbrev make : List (String × String) → NodeLattice
make entries = Node.new service "svc" true (prov_set entries)

abbrev merge_commutative_provenance : Bool
merge_commutative_provenance =
    let ab =
      (Node.merge (make (("agent-1", "alert") ∷ [])) (make (("agent-2", "log-scan") ∷ []))).0 in
    let ba =
      (Node.merge (make (("agent-2", "log-scan") ∷ [])) (make (("agent-1", "alert") ∷ []))).0 in
    list_eq Provenance.eq (lattices.set_reveal ab.provenance) (lattices.set_reveal ba.provenance)

abbrev option_eq : Option String → String → Bool
option_eq none b = false
option_eq (some a) b = string_eq.beq a b

abbrev type_conflict_detected : Bool
type_conflict_detected =
    let a = Node.new service "svc" true (prov_set (("a", "t") ∷ [])) in
    let b = Node.new infrastructure "svc" true (prov_set (("a", "t") ∷ [])) in
    let a' = (Node.merge a b).0 in
    Node.has_conflict a'
    && lattices.conflict_is_top a'.node_type
    && option_eq (Node.conflict_field a') "type"

abbrev label_conflict_detected : Bool
label_conflict_detected =
    let a = Node.new service "api-gw" true (prov_set (("a", "t") ∷ [])) in
    let b = Node.new service "api-gateway" true (prov_set (("a", "t") ∷ [])) in
    let a' = (Node.merge a b).0 in
    Node.has_conflict a'
    && lattices.conflict_is_top a'.label
    && option_eq (Node.conflict_field a') "label"

abbrev no_conflict_same_values : Bool
no_conflict_same_values =
    let a = Node.new service "svc" true (prov_set (("a", "t1") ∷ [])) in
    let b = Node.new service "svc" true (prov_set (("b", "t2") ∷ [])) in
    let a' = (Node.merge a b).0 in
    not (Node.has_conflict a') && length (lattices.set_reveal a'.provenance) == 2

abbrev hypothetical_once_false_stays_false : Bool
hypothetical_once_false_stays_false =
    let a = Node.new service "svc" false (prov_set (("a", "t") ∷ [])) in
    let b = Node.new service "svc" true (prov_set (("a", "t") ∷ [])) in
    let (a', changed) = Node.merge a b in not changed && not (lattices.min_reveal a'.hypothetical)

abbrev hypothetical_confirmed_by_merge : Bool
hypothetical_confirmed_by_merge =
    let a = Node.new service "svc" true (prov_set (("a", "t") ∷ [])) in
    let b = Node.new service "svc" false (prov_set (("a", "t") ∷ [])) in
    let (a', changed) = Node.merge a b in changed && not (lattices.min_reveal a'.hypothetical)

abbrev provenance_accumulates : Bool
provenance_accumulates =
    let a = Node.new service "svc" true (prov_set (("agent-1", "t1") ∷ [])) in
    let b = Node.new service "svc" true (prov_set (("agent-2", "t2") ∷ [])) in
    let a' = (Node.merge a b).0 in length (lattices.set_reveal a'.provenance) == 2

abbrev provenance_dedup_same_identity : Bool
provenance_dedup_same_identity =
    let a = Node.new service "svc" true (prov_set (("agent-1", "alert") ∷ [])) in
    let b = Node.new service "svc" true (prov_set (("agent-1", "alert") ∷ [])) in
    let (a', changed) = Node.merge a b in
    not changed && length (lattices.set_reveal a'.provenance) == 1

abbrev node_is_never_bot : Bool
node_is_never_bot =
    let n = Node.new service "svc" true (prov_set (("a", "t") ∷ [])) in not (Node.is_bot n)

tests_pass :
    all_hold (
      merge_idempotent_no_change ∷ merge_commutative_provenance ∷ type_conflict_detected
      ∷ label_conflict_detected ∷ no_conflict_same_values ∷ hypothetical_once_false_stays_false
      ∷ hypothetical_confirmed_by_merge ∷ provenance_accumulates ∷ provenance_dedup_same_identity
      ∷ node_is_never_bot ∷ [])
    ≡ true
unfolding Node.new Node.merge Node.has_conflict Node.conflict_field Node.is_bot Provenance.new
    Provenance.eq Provenance.cmp from_iter extend replace insert provenance_ord string_key
tests_pass = refl
