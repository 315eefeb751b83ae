-- ===== src/Reference/Hypothesis.antt =====
-- README.md, "Node Property Merge Semantics" and "Join Phase writes": merging a delta, by the merge
-- rules of the documentation. Three things are as in store/memory.rs and not as in README.md: a call
-- that fails half-way keeps what it wrote (README.md: one transaction), a conflict is listed in the
-- answer (README.md: an error), and a new node has the flag of the message (README.md: true).
use tee.Base.{
  String, Option, none, some, List, [], ◌∷◌, Result, ok, err, push, ◌&&◌, if◌then◌else◌, string_eq,
  string_key,
}
use tee.Proto
use tee.Domain.Types.{NodeType, node_type_eq, show_node_type}
use tee.Domain.Edge.{EdgeKey, new_key, edge_key}
use tee.Convert.{node_type_try_from, edge_type_try_from, show_conversion_error}
use tee.Store.State.{StoreError, backend}
use tee.Store.Hypothesis.{no_results, edge_id}
use tee.Reference.{Events, Entry, Graph, set, events_of, append}

-- A proposal of a node, whose type is known.
abbrev pub entry_of : Proto.Node → NodeType → Entry
entry_of node node_type = record {
  node_type = node_type;
  label = node.label;
  hypothetical = node.hypothetical;
  events = events_of node.provenance;
}

-- "First-write-wins (reject conflict)" for the type and the label, "once false, stays false" for the
-- flag, "append-only set" for the provenance.
abbrev pub accept : Entry → Entry → Entry
accept old new =
    if node_type_eq.beq old.node_type new.node_type && string_eq.beq old.label new.label
    then record old {
      hypothetical = old.hypothetical && new.hypothetical;
      events = append old.events new.events;
    }
    else old

abbrev pub propose : Option Entry → Entry → Entry
propose none new = new
propose (some old) new = accept old new

abbrev conflict : String → String → String → Proto.MergeConflict
conflict id field value = record {
  id = id;
  field = field;
  existing_value = value;
  proposed_value = "";
}

-- The report on a proposal.
abbrev pub report :
    String → Option Entry → Entry → Proto.HypothesisMergeResult → Proto.HypothesisMergeResult
report id none new r = record r { created_ids = push r.created_ids id }
report id (some old) new r =
    if node_type_eq.beq old.node_type new.node_type
    then if string_eq.beq old.label new.label
      then record r { merged_ids = push r.merged_ids id }
      else record r { conflicts = push r.conflicts (conflict id "label" old.label) }
    else record r {
      conflicts = push r.conflicts (conflict id "type" (show_node_type old.node_type));
    }

-- One proposal after the other, up to the first whose type is unknown.
unfoldable pub merge_nodes :
    List Proto.Node
    → (String → Option Entry)
    → Proto.HypothesisMergeResult
    → (String → Option Entry) × Result Proto.HypothesisMergeResult StoreError
merge_nodes [] m r = (m, ok r)
merge_nodes (n ∷ ns) m r = elim (node_type_try_from n.type) [
  | err e ↦ (m, err (backend (show_conversion_error e)))
  | ok t ↦
      let new = entry_of n t in
      merge_nodes ns (set m n.id (propose (m n.id) new)) (report n.id (m n.id) new r)
]

abbrev pub append_at : Option Events → Events → Events
append_at none new = new
append_at (some old) new = append old new

abbrev pub report_edge :
    String → Option Events → Proto.HypothesisMergeResult → Proto.HypothesisMergeResult
report_edge id none r = record r { created_ids = push r.created_ids id }
report_edge id (some old) r = record r { merged_ids = push r.merged_ids id }

unfoldable pub merge_edges :
    List Proto.Edge
    → (EdgeKey → Option Events)
    → Proto.HypothesisMergeResult
    → (EdgeKey → Option Events) × Result Proto.HypothesisMergeResult StoreError
merge_edges [] m r = (m, ok r)
merge_edges (e ∷ es) m r = elim (edge_type_try_from e.type) [
  | err f ↦ (m, err (backend (show_conversion_error f)))
  | ok t ↦
      let k = new_key e.source e.target t in
      merge_edges es (set m k (append_at (m k) (events_of e.provenance)))
        (report_edge (edge_id e) (m k) r)
]

-- The edges are merged where the types of all nodes are known.
unfoldable pub merge_hypothesis :
    Proto.HypothesisDelta → Graph → Graph × Result Proto.HypothesisMergeResult StoreError
merge_hypothesis d g =
    let (nodes, merged) = merge_nodes d.nodes g.nodes no_results in
    elim merged [
      | err e ↦ (record g { nodes = nodes }, err e)
      | ok r ↦
          let (edges, result) = merge_edges d.edges g.edges r in
          (record g { nodes = nodes; edges = edges }, result)
    ]
