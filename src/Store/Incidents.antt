-- ===== src/Store/Incidents.antt =====
-- `create_incident` and `get_incident_context`.
use tee.Base.{
  ℕ, ℤ, String, [], map, Option, none, some, true, false, Result, ok, err, ◌>>=◌, if◌then◌else◌,
  string_key,
}
use tee.Base.Int.{as_i64, as_i32}
use tee.Collections.BTreeMap.{get, insert, contains_key}
use tee.Lattices.{Lattices}
use tee.Proto
use tee.Domain.Edge.{EdgeKey}
use tee.Convert.{i32_from_edge_type}
use tee.Store.State.{StoreError, incident_not_found, IncidentState, InnerState, Outcome}

-- `now.as_secs() as i64` and `now.subsec_nanos() as i32` of the time since the epoch, which is
-- zero where the clock stands before it.
unfoldable pub timestamp_of : Option (ℕ × ℕ) → ℤ × ℤ
timestamp_of none = (as_i64 0, as_i32 0)
timestamp_of (some (secs, nanos)) = (as_i64 secs, as_i32 nanos)

-- `ok_or_else(|| StoreError::IncidentNotFound(id))`.
abbrev pub or_not_found : String → Option IncidentState → Result IncidentState StoreError
or_not_found id none = err (incident_not_found id)
or_not_found id (some incident) = ok incident

-- An edge tombstone as a message.
unfoldable pub entry_of_key : EdgeKey → Proto.EdgeTombstoneEntry
entry_of_key k = record {
  source = k.source;
  target = k.target;
  type = i32_from_edge_type k.edge_type;
}

-- The tombstones of an incident as a message.
unfoldable pub tombstone_set : IncidentState → Proto.TombstoneSet
tombstone_set incident = record {
  node_ids = incident.node_tombstones;
  edge_entries = map entry_of_key incident.edge_tombstones;
}

module _ ⦃L : Lattices⦄ where
  -- The clock is read only where the incident is new.
  unfoldable pub create_incident :
      Option (ℕ × ℕ) → String → InnerState → Outcome Proto.CreateIncidentResult
  create_incident now incident_id state =
      if contains_key state.incidents incident_id
      then (state, ok (record { incident_id = incident_id; created = false }))
      else (
        record state {
          incidents = insert state.incidents incident_id (record {
            created_at = timestamp_of now;
            node_tombstones = [];
            edge_tombstones = [];
          });
        },
        ok (record { incident_id = incident_id; created = true }),
      )

  unfoldable pub get_incident_context :
      String → InnerState → Result Proto.IncidentContext StoreError
  get_incident_context incident_id state = do
    incident ← or_not_found incident_id (get state.incidents incident_id)
    ok (record {
      incident_id = incident_id;
      created_at = some (record { seconds = incident.created_at.0; nanos = incident.created_at.1 });
      tombstones = some (tombstone_set incident);
    })
