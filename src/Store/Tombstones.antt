-- ===== src/Store/Tombstones.antt =====
-- `merge_node_tombstones`, `merge_edge_tombstones` and `get_tombstones`.
pub mod Nodes
pub mod Edges
pub mod Laws
pub mod Repeat
pub mod Order
use Prim.Native.String.{◌++◌}
use tee.Base.{
  String, List, [], ◌∷◌, map, Option, none, some, Result, ok, err, ◌>>=◌, push, if◌then◌else◌,
  string_ord, string_key,
}
use tee.Base.Int.{show_int}
use tee.Collections.BTreeSet.{BTreeSet, contains}
use tee.Collections.BTreeSet
use tee.Collections.BTreeMap.{BTreeMap, get, insert, contains_key}
use tee.Lattices.{Lattices}
use tee.Proto
use tee.Domain.Node.{NodeLattice}
use tee.Domain.Edge.{EdgeKey, EdgeLattice, new_key, edge_ord, edge_key}
use tee.Convert.{edge_type_try_from, show_conversion_error}
use tee.Store.State.{StoreError, backend, incident_not_found, IncidentState, InnerState, Outcome}
use tee.Store.Incidents.{or_not_found, tombstone_set}

-- `format!("{}->{}:{}", source, target, type)`.
unfoldable pub entry_id : Proto.EdgeTombstoneEntry → String
entry_id e = e.source ++ "->" ++ e.target ++ ":" ++ show_int e.type

abbrev pub no_tombstones : Proto.TombstoneMergeResult
no_tombstones = record { applied_ids = []; already_tombstoned_ids = []; unmatched_ids = [] }

module _ ⦃L : Lattices⦄ where
  -- The body of the loop over the node ids.
  unfoldable pub tombstone_node :
      BTreeMap String NodeLattice
      → String
      → BTreeSet String
      → Proto.TombstoneMergeResult
      → BTreeSet String × Proto.TombstoneMergeResult
  tombstone_node nodes id tombstones r =
      if contains tombstones id
      then (tombstones, record r { already_tombstoned_ids = push r.already_tombstoned_ids id })
      else if contains_key nodes id
      then (BTreeSet.insert tombstones id, record r { applied_ids = push r.applied_ids id })
      else (BTreeSet.insert tombstones id, record r { unmatched_ids = push r.unmatched_ids id })

  -- The loop over the node ids.
  unfoldable pub tombstone_nodes :
      BTreeMap String NodeLattice
      → List String
      → BTreeSet String
      → Proto.TombstoneMergeResult
      → BTreeSet String × Proto.TombstoneMergeResult
  tombstone_nodes nodes [] tombstones r = (tombstones, r)
  tombstone_nodes nodes (id ∷ rest) tombstones r =
      let (tombstones', r') = tombstone_node nodes id tombstones r in
      tombstone_nodes nodes rest tombstones' r'

  unfoldable pub merge_node_tombstones :
      Proto.NodeTombstoneRequest → InnerState → Outcome Proto.TombstoneMergeResult
  merge_node_tombstones request state = elim (get state.incidents request.incident_id) [
    | none ↦ (state, err (incident_not_found request.incident_id))
    | some incident ↦
        let (tombstones, r) =
          tombstone_nodes state.nodes request.node_ids incident.node_tombstones no_tombstones in
        (
          record state {
            incidents =
                insert state.incidents request.incident_id
                  (record incident { node_tombstones = tombstones });
          },
          ok r,
        )
  ]

  -- The body of the loop over the entries, after the conversion of the type.
  unfoldable pub tombstone_edge :
      BTreeMap EdgeKey EdgeLattice
      → String
      → EdgeKey
      → BTreeSet EdgeKey
      → Proto.TombstoneMergeResult
      → BTreeSet EdgeKey × Proto.TombstoneMergeResult
  tombstone_edge edges id key tombstones r =
      if contains tombstones key
      then (tombstones, record r { already_tombstoned_ids = push r.already_tombstoned_ids id })
      else if contains_key edges key
      then (BTreeSet.insert tombstones key, record r { applied_ids = push r.applied_ids id })
      else (BTreeSet.insert tombstones key, record r { unmatched_ids = push r.unmatched_ids id })

  -- The loop over the entries. A type that does not convert ends it, and what was inserted stays.
  unfoldable pub tombstone_edges :
      BTreeMap EdgeKey EdgeLattice
      → List Proto.EdgeTombstoneEntry
      → BTreeSet EdgeKey
      → Proto.TombstoneMergeResult
      → BTreeSet EdgeKey × Result Proto.TombstoneMergeResult StoreError
  tombstone_edges edges [] tombstones r = (tombstones, ok r)
  tombstone_edges edges (entry ∷ rest) tombstones r = elim (edge_type_try_from entry.type) [
    | err e ↦ (tombstones, err (backend (show_conversion_error e)))
    | ok edge_type ↦
        let key = new_key entry.source entry.target edge_type in
        let (tombstones', r') = tombstone_edge edges (entry_id entry) key tombstones r in
        tombstone_edges edges rest tombstones' r'
  ]

  unfoldable pub merge_edge_tombstones :
      Proto.EdgeTombstoneRequest → InnerState → Outcome Proto.TombstoneMergeResult
  merge_edge_tombstones request state = elim (get state.incidents request.incident_id) [
    | none ↦ (state, err (incident_not_found request.incident_id))
    | some incident ↦
        let (tombstones, r) =
          tombstone_edges state.edges request.entries incident.edge_tombstones no_tombstones in
        (
          record state {
            incidents =
                insert state.incidents request.incident_id
                  (record incident { edge_tombstones = tombstones });
          },
          r,
        )
  ]

  unfoldable pub get_tombstones : String → InnerState → Result Proto.TombstoneSet StoreError
  get_tombstones incident_id state = do
    incident ← or_not_found incident_id (get state.incidents incident_id)
    ok (tombstone_set incident)
