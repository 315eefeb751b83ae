-- ===== src/Examples/Tests/Convert.antt =====
-- The tests of proto_convert.rs.
use tee.Base.{
  is_err, ◌≡◌, refl, ◌==◌, Bool, true, false, ◌&&◌, pos, none, some, [], ◌∷◌, ok, err, length,
  string_eq, string_key,
}
use tee.Base.Int.{int_eq}
use tee.Collections.BTreeSet.{from_iter, extend, replace, insert}
use tee.Domain.Types.{
  NodeType, service, dependency, infrastructure, mechanism, EdgeType, depends_on, propagates_to,
  manifests_as, node_type_beq, edge_type_cmp,
}
use tee.Collections.BTreeSet.{is_eq}
use tee.Domain.Provenance
use tee.Domain.Provenance.{Provenance, provenance_ord}
use tee.Domain.Node
use tee.Domain.Edge
use tee.Proto
use tee.Proto.{node_type_as_i32, edge_type_as_i32}
use tee.Convert.{
  node_type_try_from, i32_from_node_type, edge_type_try_from, i32_from_edge_type,
  provenance_from_proto, provenance_to_proto, proto_node_to_domain, domain_node_to_proto,
  proto_edge_to_domain, domain_edge_to_proto,
}
use tee.Examples.Model.{lattices}
use tee.Examples.Tests.Run.{all_hold}

-- The body of the loop of `node_type_roundtrip`, and of that of `edge_type_roundtrip`.
abbrev node_type_returns : NodeType → Bool
node_type_returns nt = elim (node_type_try_from (i32_from_node_type nt)) [
  | ok back ↦ node_type_beq nt back
  | err _ ↦ false
]

abbrev node_type_roundtrip : Bool
node_type_roundtrip =
    node_type_returns service
    && node_type_returns dependency
    && node_type_returns infrastructure
    && node_type_returns mechanism

abbrev edge_type_returns : EdgeType → Bool
edge_type_returns et = elim (edge_type_try_from (i32_from_edge_type et)) [
  | ok back ↦ is_eq (edge_type_cmp et back)
  | err _ ↦ false
]

abbrev edge_type_roundtrip : Bool
edge_type_roundtrip =
    edge_type_returns depends_on
    && edge_type_returns propagates_to
    && edge_type_returns manifests_as

abbrev invalid_node_type_rejected : Bool
invalid_node_type_rejected = is_err (node_type_try_from (pos 99))

abbrev unspecified_node_type_rejected : Bool
unspecified_node_type_rejected =
    is_err (node_type_try_from (node_type_as_i32 Proto.NodeType.unspecified))

-- `back.timestamp.unwrap().seconds`.
abbrev seconds_are_1000 : Proto.Provenance → Bool
seconds_are_1000 p = elim p.timestamp [ none ↦ false | some t ↦ int_eq t.seconds (pos 1000) ]

abbrev provenance_roundtrip : Bool
provenance_roundtrip =
    let domain = provenance_from_proto (record {
      source = "agent-1";
      trigger = "alert";
      timestamp = some (record { seconds = pos 1000; nanos = pos 500 });
    }) in
    let back = provenance_to_proto domain in
    string_eq.beq domain.source "agent-1"
    && string_eq.beq domain.trigger "alert"
    && int_eq domain.timestamp_seconds (pos 1000)
    && int_eq domain.timestamp_nanos (pos 500)
    && string_eq.beq back.source "agent-1"
    && string_eq.beq back.trigger "alert"
    && seconds_are_1000 back

abbrev node_roundtrip : Bool
node_roundtrip =
    elim (proto_node_to_domain (record {
      id = "n1";
      type = node_type_as_i32 Proto.service;
      label = "api-gw";
      hypothetical = true;
      provenance = record { source = "a"; trigger = "t"; timestamp = none } ∷ [];
    })) [
      | err _ ↦ false
      | ok (id, lattice) ↦
          let back = domain_node_to_proto id lattice in
          string_eq.beq id "n1"
          && string_eq.beq back.id "n1"
          && int_eq back.type (node_type_as_i32 Proto.service)
          && string_eq.beq back.label "api-gw"
          && back.hypothetical
          && length back.provenance == 1
    ]

abbrev edge_roundtrip : Bool
edge_roundtrip =
    elim (proto_edge_to_domain (record {
      source = "a";
      target = "b";
      type = edge_type_as_i32 Proto.depends_on;
      provenance = record { source = "agent"; trigger = "scan"; timestamp = none } ∷ [];
    })) [
      | err _ ↦ false
      | ok (key, lattice) ↦
          let back = domain_edge_to_proto key lattice in
          string_eq.beq key.source "a"
          && string_eq.beq key.target "b"
          && is_eq (edge_type_cmp key.edge_type depends_on)
          && string_eq.beq back.source "a"
          && string_eq.beq back.target "b"
          && int_eq back.type (edge_type_as_i32 Proto.depends_on)
          && length back.provenance == 1
    ]

tests_pass :
    all_hold (
      node_type_roundtrip ∷ edge_type_roundtrip ∷ invalid_node_type_rejected
      ∷ unspecified_node_type_rejected ∷ provenance_roundtrip ∷ node_roundtrip ∷ edge_roundtrip
      ∷ [])
    ≡ true
unfolding node_type_try_from i32_from_node_type edge_type_try_from i32_from_edge_type
    provenance_from_proto provenance_to_proto proto_node_to_domain domain_node_to_proto
    proto_edge_to_domain domain_edge_to_proto Node.new Edge.new Edge.new_key from_iter extend
    replace insert provenance_ord Provenance.cmp string_key
tests_pass = refl
