-- ===== src/Service/Handlers.antt =====
-- service.rs: the handlers of the eight calls and the two error mappings.
use Prim.Native.String.{◌++◌}
use tee.Base.{ℕ, Option, Result, ok, err, ◌>>=◌, map_err}
use tee.Lattices.{Lattices}
use tee.Proto
use tee.Validation
use tee.Validation.{ValidationError, Verdict}
use tee.Store.State.{StoreError, incident_not_found, backend, InnerState, Outcome}
use tee.Store.Hypothesis
use tee.Store.Incidents
use tee.Store.Tombstones
use tee.Store.Views
use tee.Service.Runtime.{Runtime}

module _ ⦃R : Runtime⦄ where
  unfoldable pub store_error_to_status : StoreError → R.Status
  store_error_to_status (incident_not_found id) = R.not_found ("incident not found: " ++ id)
  store_error_to_status (backend msg) = R.internal msg

  unfoldable pub validation_error_to_status : ValidationError → R.Status
  validation_error_to_status e = R.invalid_argument (Validation.show_validation_error R.debug e)

  -- `Ok(Response::new(result))`, after the store's error is turned into a status.
  abbrev pub respond : {A : Type 0} → Result A StoreError → Result (R.Response A) R.Status
  respond result = map_err store_error_to_status result >>= λ a. ok (R.response_new a)

module _ ⦃L : Lattices⦄ ⦃R : Runtime⦄ where
  -- The state that a handler leaves behind, and its answer.
  abbrev pub Answer : Type 0 → Type 0
  Answer A = InnerState × Result (R.Response A) R.Status

  -- `validate(..).map_err(validation_error_to_status)?`, then a method that writes.
  unfoldable pub checked_write :
      {A : Type 0} → Verdict → (InnerState → Outcome A) → InnerState → Answer A
  checked_write verdict method state = elim verdict [
    | err e ↦ (state, err (validation_error_to_status e))
    | ok _ ↦ let (state', result) = method state in (state', respond result)
  ]

  -- The same with a method that only reads.
  unfoldable pub checked_read :
      {A : Type 0} → Verdict → (InnerState → Result A StoreError) → InnerState → Answer A
  checked_read verdict method state = elim verdict [
    | err e ↦ (state, err (validation_error_to_status e))
    | ok _ ↦ (state, respond (method state))
  ]

  unfoldable pub merge_hypothesis :
      R.Request Proto.HypothesisDelta → InnerState → Answer Proto.HypothesisMergeResult
  merge_hypothesis request state =
      let delta = R.into_inner request in
      checked_write (Validation.validate_hypothesis_delta delta) (Hypothesis.merge_hypothesis delta)
        state

  unfoldable pub create_incident :
      Option (ℕ × ℕ)
      → R.Request Proto.CreateIncidentRequest
      → InnerState
      → Answer Proto.CreateIncidentResult
  create_incident now request state =
      let req = R.into_inner request in
      checked_write (Validation.validate_incident_id req.incident_id)
        (Incidents.create_incident now req.incident_id) state

  unfoldable pub get_incident_context :
      R.Request Proto.IncidentContextRequest → InnerState → Answer Proto.IncidentContext
  get_incident_context request state =
      let req = R.into_inner request in
      checked_read (Validation.validate_incident_id req.incident_id)
        (Incidents.get_incident_context req.incident_id) state

  unfoldable pub merge_node_tombstones :
      R.Request Proto.NodeTombstoneRequest → InnerState → Answer Proto.TombstoneMergeResult
  merge_node_tombstones request state =
      let req = R.into_inner request in
      checked_write (Validation.validate_node_tombstone_request req)
        (Tombstones.merge_node_tombstones req) state

  unfoldable pub merge_edge_tombstones :
      R.Request Proto.EdgeTombstoneRequest → InnerState → Answer Proto.TombstoneMergeResult
  merge_edge_tombstones request state =
      let req = R.into_inner request in
      checked_write (Validation.validate_edge_tombstone_request req)
        (Tombstones.merge_edge_tombstones req) state

  unfoldable pub get_live_view :
      R.Request Proto.LiveViewRequest → InnerState → Answer Proto.CausalGraph
  get_live_view request state =
      let req = R.into_inner request in
      checked_read (Validation.validate_incident_id req.incident_id)
        (Views.get_live_view req.incident_id) state

  unfoldable pub get_tombstones :
      R.Request Proto.TombstoneRequest → InnerState → Answer Proto.TombstoneSet
  get_tombstones request state =
      let req = R.into_inner request in
      checked_read (Validation.validate_incident_id req.incident_id)
        (Tombstones.get_tombstones req.incident_id) state

  unfoldable pub get_main_graph : R.Request (Unit {0}) → InnerState → Answer Proto.CausalGraph
  get_main_graph request state = (state, respond (Views.get_main_graph state))
