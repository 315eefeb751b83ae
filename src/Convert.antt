-- ===== src/Convert.antt =====
-- proto_convert.rs: between the messages and the domain types.
pub mod Facts
use Prim.Native.String.{◌++◌}
use mathlib.Core.Option
use tee.Base.{
  ℤ, pos, String, Bool, true, false, Option, none, some, List, map, Result, ok, err, ◌>>=◌,
  unwrap_or, if◌then◌else◌,
}
use tee.Base.Int.{int_eq, show_int}
use tee.Collections.BTreeSet.{BTreeSet, from_iter}
use tee.Lattices.{Lattices}
use tee.Proto
use tee.Proto.{node_type_as_i32, edge_type_as_i32}
use tee.Domain.Types.{
  NodeType, service, dependency, infrastructure, mechanism, EdgeType, depends_on, propagates_to,
  manifests_as,
}
use tee.Domain.Provenance
use tee.Domain.Provenance.{Provenance, provenance_ord}
use tee.Domain.Node
use tee.Domain.Node.{NodeLattice}
use tee.Domain.Edge
use tee.Domain.Edge.{EdgeKey, EdgeLattice}

pub data ConversionError : Type 0 where
  invalid_node_type invalid_edge_type : ℤ → ConversionError

-- `to_string`.
abbrev pub show_conversion_error : ConversionError → String
show_conversion_error (invalid_node_type n) = "invalid node type value: " ++ show_int n
show_conversion_error (invalid_edge_type n) = "invalid edge type value: " ++ show_int n

-- `NodeType::try_from`.
unfoldable pub node_type_try_from : ℤ → Result NodeType ConversionError
node_type_try_from value =
    if int_eq value (node_type_as_i32 Proto.service)
    then ok service
    else if int_eq value (node_type_as_i32 Proto.dependency)
    then ok dependency
    else if int_eq value (node_type_as_i32 Proto.infrastructure)
    then ok infrastructure
    else if int_eq value (node_type_as_i32 Proto.mechanism)
    then ok mechanism
    else err (invalid_node_type value)

-- `i32::from(NodeType)`.
unfoldable pub i32_from_node_type : NodeType → ℤ
i32_from_node_type service = node_type_as_i32 Proto.service
i32_from_node_type dependency = node_type_as_i32 Proto.dependency
i32_from_node_type infrastructure = node_type_as_i32 Proto.infrastructure
i32_from_node_type mechanism = node_type_as_i32 Proto.mechanism

-- `EdgeType::try_from`.
unfoldable pub edge_type_try_from : ℤ → Result EdgeType ConversionError
edge_type_try_from value =
    if int_eq value (edge_type_as_i32 Proto.depends_on)
    then ok depends_on
    else if int_eq value (edge_type_as_i32 Proto.propagates_to)
    then ok propagates_to
    else if int_eq value (edge_type_as_i32 Proto.manifests_as)
    then ok manifests_as
    else err (invalid_edge_type value)

-- `i32::from(EdgeType)`.
unfoldable pub i32_from_edge_type : EdgeType → ℤ
i32_from_edge_type depends_on = edge_type_as_i32 Proto.depends_on
i32_from_edge_type propagates_to = edge_type_as_i32 Proto.propagates_to
i32_from_edge_type manifests_as = edge_type_as_i32 Proto.manifests_as

-- `(t.seconds, t.nanos)`, or zeros where there is no timestamp.
abbrev timestamp_parts : Option Proto.Timestamp → ℤ × ℤ
timestamp_parts none = (pos 0, pos 0)
timestamp_parts (some t) = (t.seconds, t.nanos)

-- `Provenance::from(proto::Provenance)`.
unfoldable pub provenance_from_proto : Proto.Provenance → Provenance
unfolding Provenance.new Provenance.with_timestamp
provenance_from_proto p =
    let (secs, nanos) = timestamp_parts p.timestamp in
    Provenance.with_timestamp (Provenance.new p.source p.trigger) secs nanos

-- `proto::Provenance::from(&Provenance)`.
unfoldable pub provenance_to_proto : Provenance → Proto.Provenance
provenance_to_proto p = record {
  source = p.source;
  timestamp = some (record { seconds = p.timestamp_seconds; nanos = p.timestamp_nanos });
  trigger = p.trigger;
}

module _ ⦃L : Lattices⦄ where
  unfoldable pub proto_node_to_domain : Proto.Node → Result (String × NodeLattice) ConversionError
  proto_node_to_domain node = do
    node_type ← node_type_try_from node.type
    let provenance = from_iter (map provenance_from_proto node.provenance)
    ok (node.id, Node.new node_type node.label node.hypothetical provenance)

  unfoldable pub domain_node_to_proto : String → NodeLattice → Proto.Node
  domain_node_to_proto id lattice = record {
    id = id;
    type =
        unwrap_or (Option.map i32_from_node_type (L.conflict_reveal lattice.node_type))
          (node_type_as_i32 Proto.NodeType.unspecified);
    label = unwrap_or (L.conflict_reveal lattice.label) "";
    hypothetical = L.min_reveal lattice.hypothetical;
    provenance = map provenance_to_proto (L.set_reveal lattice.provenance);
  }

  unfoldable pub proto_edge_to_domain : Proto.Edge → Result (EdgeKey × EdgeLattice) ConversionError
  proto_edge_to_domain edge = do
    edge_type ← edge_type_try_from edge.type
    let key = Edge.new_key edge.source edge.target edge_type
    let provenance = from_iter (map provenance_from_proto edge.provenance)
    ok (key, Edge.new provenance)

  unfoldable pub domain_edge_to_proto : EdgeKey → EdgeLattice → Proto.Edge
  domain_edge_to_proto key lattice = record {
    source = key.source;
    target = key.target;
    type = i32_from_edge_type key.edge_type;
    provenance = map provenance_to_proto (L.set_reveal lattice.provenance);
  }
