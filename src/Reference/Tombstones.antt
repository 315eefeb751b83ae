-- ===== src/Reference/Tombstones.antt =====
-- README.md, "Incident creation" and "Meet Phase writes": incidents and their tombstones. As in
-- store/memory.rs and not as in README.md, a tombstone has no provenance and a call that fails
-- half-way keeps what it wrote. The time of an incident is that of `timestamp_of`.
use tee.Base.{
  ℕ, String, Bool, true, false, ◌||◌, Option, none, some, List, [], ◌∷◌, Result, ok, err, push,
  is_some, if◌then◌else◌, string_eq, string_key, KeyOrd,
}
use tee.Collections.BTreeSet.{is_eq}
use tee.Proto
use tee.Domain.Edge.{EdgeKey, new_key, edge_key}
use tee.Convert.{edge_type_try_from, show_conversion_error}
use tee.Store.State.{StoreError, backend, incident_not_found}
use tee.Store.Incidents.{timestamp_of}
use tee.Store.Tombstones.{no_tombstones, entry_id}
use tee.Reference.{Graph, set}

unfoldable pub create_incident :
    Option (ℕ × ℕ) → String → Graph → Graph × Result Proto.CreateIncidentResult StoreError
create_incident now id g = elim (g.incidents id) [
  | some _ ↦ (g, ok (record { incident_id = id; created = false }))
  | none ↦ (
    record g {
      incidents = set g.incidents id (record {
        created_at = timestamp_of now;
        dead_nodes = λ n. false;
        dead_edges = λ k. false;
      });
    },
    ok (record { incident_id = id; created = true }),
  )
]

-- "newly tombstoned", "already present" or "unmatched".
abbrev pub classify : Bool → Bool → String → Proto.TombstoneMergeResult → Proto.TombstoneMergeResult
classify dead known id r =
    if dead
    then record r { already_tombstoned_ids = push r.already_tombstoned_ids id }
    else if known
    then record r { applied_ids = push r.applied_ids id }
    else record r { unmatched_ids = push r.unmatched_ids id }

-- A set with one more element.
abbrev pub add {ℓ} : {K : Type ℓ} ⦃o : KeyOrd K⦄ → (K → Bool) → K → K → Bool
add ⦃o⦄ s k j = is_eq (o.cmp j k) || s j

unfoldable pub bury_nodes :
    (String → Bool)
    → List String
    → (String → Bool)
    → Proto.TombstoneMergeResult
    → (String → Bool) × Proto.TombstoneMergeResult
bury_nodes known [] dead r = (dead, r)
bury_nodes known (id ∷ ids) dead r =
    bury_nodes known ids (add dead id) (classify (dead id) (known id) id r)

unfoldable pub merge_node_tombstones :
    Proto.NodeTombstoneRequest → Graph → Graph × Result Proto.TombstoneMergeResult StoreError
merge_node_tombstones q g = elim (g.incidents q.incident_id) [
  | none ↦ (g, err (incident_not_found q.incident_id))
  | some i ↦
      let (dead, r) =
        bury_nodes (λ id. is_some (g.nodes id)) q.node_ids i.dead_nodes no_tombstones in
      (
        record g { incidents = set g.incidents q.incident_id (record i { dead_nodes = dead }) },
        ok r,
      )
]

unfoldable pub bury_edges :
    (EdgeKey → Bool)
    → List Proto.EdgeTombstoneEntry
    → (EdgeKey → Bool)
    → Proto.TombstoneMergeResult
    → (EdgeKey → Bool) × Result Proto.TombstoneMergeResult StoreError
bury_edges known [] dead r = (dead, ok r)
bury_edges known (e ∷ es) dead r = elim (edge_type_try_from e.type) [
  | err f ↦ (dead, err (backend (show_conversion_error f)))
  | ok t ↦
      let k = new_key e.source e.target t in
      bury_edges known es (add dead k) (classify (dead k) (known k) (entry_id e) r)
]

unfoldable pub merge_edge_tombstones :
    Proto.EdgeTombstoneRequest → Graph → Graph × Result Proto.TombstoneMergeResult StoreError
merge_edge_tombstones q g = elim (g.incidents q.incident_id) [
  | none ↦ (g, err (incident_not_found q.incident_id))
  | some i ↦
      let (dead, r) = bury_edges (λ k. is_some (g.edges k)) q.entries i.dead_edges no_tombstones in
      (record g { incidents = set g.incidents q.incident_id (record i { dead_edges = dead }) }, r)
]
