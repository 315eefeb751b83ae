-- ===== src/Store/Hypothesis.antt =====
-- `merge_hypothesis`: nodes first, then edges, one after the other. An element that does not
-- convert ends the method at once, and what was merged before it stays.
pub mod Nodes
pub mod Edges
pub mod Replay
pub mod Answer
pub mod Stored
pub mod Single
pub mod Absorbed
use Prim.Native.String.{◌++◌}
use mathlib.Core.Option
use tee.Base.{
  String, List, [], ◌∷◌, Option, none, some, Result, ok, err, push, unwrap_or, if◌then◌else◌,
  string_eq, string_key,
}
use tee.Base.Int.{show_int}
use tee.Collections.BTreeMap.{BTreeMap, get, insert}
use tee.Lattices.{Lattices}
use tee.Proto
use tee.Domain.Types.{show_node_type}
use tee.Domain.Node
use tee.Domain.Node.{NodeLattice}
use tee.Domain.Edge
use tee.Domain.Edge.{EdgeKey, EdgeLattice, edge_key}
use tee.Convert.{show_conversion_error, proto_node_to_domain, proto_edge_to_domain}
use tee.Store.State.{StoreError, backend, InnerState, Outcome}

-- `format!("{}->{}:{}", source, target, type)`.
unfoldable pub edge_id : Proto.Edge → String
edge_id e = e.source ++ "->" ++ e.target ++ ":" ++ show_int e.type

abbrev pub no_results : Proto.HypothesisMergeResult
no_results = record { created_ids = []; merged_ids = []; conflicts = [] }

module _ ⦃L : Lattices⦄ where
  -- The value of the field that stands in the way, as text.
  unfoldable pub existing_value : NodeLattice → String → String
  existing_value existing field =
      if string_eq.beq field "type"
      then unwrap_or (Option.map show_node_type (L.conflict_reveal existing.node_type)) ""
      else if string_eq.beq field "label"
      then unwrap_or (L.conflict_reveal existing.label) ""
      else ""

  -- The report on a candidate that is in conflict. The proposed value is gone by then.
  unfoldable pub conflict_report : String → NodeLattice → NodeLattice → Proto.MergeConflict
  conflict_report node_id existing candidate =
      let field = unwrap_or (Node.conflict_field candidate) "unknown" in
      record {
        id = node_id;
        field = field;
        existing_value = existing_value existing field;
        proposed_value = "";
      }

  -- The body of the loop over the nodes, after the conversion.
  unfoldable pub merge_node :
      String
      → NodeLattice
      → BTreeMap String NodeLattice
      → Proto.HypothesisMergeResult
      → BTreeMap String NodeLattice × Proto.HypothesisMergeResult
  merge_node id lattice nodes r = elim (get nodes id) [
    | none ↦ (insert nodes id lattice, record r { created_ids = push r.created_ids id })
    | some existing ↦
        let candidate = (Node.merge existing lattice).0 in
        if Node.has_conflict candidate
        then (
          nodes,
          record r { conflicts = push r.conflicts (conflict_report id existing candidate) },
        )
        else (insert nodes id candidate, record r { merged_ids = push r.merged_ids id })
  ]

  -- The loop over the nodes.
  unfoldable pub merge_nodes :
      List Proto.Node
      → BTreeMap String NodeLattice
      → Proto.HypothesisMergeResult
      → BTreeMap String NodeLattice × Result Proto.HypothesisMergeResult StoreError
  merge_nodes [] nodes r = (nodes, ok r)
  merge_nodes (node ∷ rest) nodes r = elim (proto_node_to_domain node) [
    | err e ↦ (nodes, err (backend (show_conversion_error e)))
    | ok (id, lattice) ↦
        let (nodes', r') = merge_node id lattice nodes r in merge_nodes rest nodes' r'
  ]

  -- The body of the loop over the edges, after the conversion.
  unfoldable pub merge_edge :
      String
      → EdgeKey
      → EdgeLattice
      → BTreeMap EdgeKey EdgeLattice
      → Proto.HypothesisMergeResult
      → BTreeMap EdgeKey EdgeLattice × Proto.HypothesisMergeResult
  merge_edge id key lattice edges r = elim (get edges key) [
    | none ↦ (insert edges key lattice, record r { created_ids = push r.created_ids id })
    | some existing ↦ (
      insert edges key (Edge.merge existing lattice).0,
      record r { merged_ids = push r.merged_ids id },
    )
  ]

  -- The loop over the edges.
  unfoldable pub merge_edges :
      List Proto.Edge
      → BTreeMap EdgeKey EdgeLattice
      → Proto.HypothesisMergeResult
      → BTreeMap EdgeKey EdgeLattice × Result Proto.HypothesisMergeResult StoreError
  merge_edges [] edges r = (edges, ok r)
  merge_edges (edge ∷ rest) edges r = elim (proto_edge_to_domain edge) [
    | err e ↦ (edges, err (backend (show_conversion_error e)))
    | ok (key, lattice) ↦
        let (edges', r') = merge_edge (edge_id edge) key lattice edges r in
        merge_edges rest edges' r'
  ]

  unfoldable pub merge_hypothesis :
      Proto.HypothesisDelta → InnerState → Outcome Proto.HypothesisMergeResult
  merge_hypothesis delta state =
      let (nodes, merged) = merge_nodes delta.nodes state.nodes no_results in
      elim merged [
        | err e ↦ (record state { nodes = nodes }, err e)
        | ok r ↦
            let (edges, result) = merge_edges delta.edges state.edges r in
            (record state { nodes = nodes; edges = edges }, result)
      ]
