-- ===== src/Service/Errors.antt =====
-- service.rs: the statuses of calls that fail, and the store after them.
use tee.Base.{
  ℕ, ◌≡◌, ◌≢◌, refl, String, Option, none, Result, ok, err, All, string_key, string_ord, arith,
}
use tee.Collections.BTreeMap.{get}
use tee.Lattices.{Lattices}
use tee.Proto
use tee.Validation
use tee.Validation.{Verdict}
use tee.Validation.Spec
use tee.Validation.Requests
use tee.Store.State.{InnerState, Outcome, StoreError, incident_not_found}
use tee.Store.Incidents
use tee.Store.Tombstones
use tee.Store.Tombstones.Laws.{merge_node_tombstones-none, merge_edge_tombstones-none}
use tee.Store.Views
use tee.Service.Invariant.{validate_incident_id-ok}
use tee.Service.Runtime.{Runtime}
use tee.Service.Handlers
use tee.Service.Handlers.{
  checked_write, checked_read, Answer, store_error_to_status, validation_error_to_status,
}

module _ ⦃L : Lattices⦄ ⦃R : Runtime⦄ where
  -- The call fails with a code and leaves the store as it is.
  abbrev pub Fails : {A : Type 0} → R.Code → InnerState → Answer A → Type 0
  Fails code s answer = (status : R.Status) × (answer ≡ (s, err status)) × (R.code status ≡ code)

  checked_write-refused :
      {A : Type 0} (verdict : Verdict) (method : InnerState → Outcome A) (s : InnerState)
      → verdict ≢ ok tt
      → Fails R.invalid_argument_code s (checked_write verdict method s)
  unfolding checked_write validation_error_to_status
  checked_write-refused (ok tt) method s h = absurd (h refl)
  checked_write-refused (err e) method s h =
      (validation_error_to_status e, refl, R.code-invalid_argument _)

  checked_read-refused :
      {A : Type 0} (verdict : Verdict) (method : InnerState → Result A StoreError) (s : InnerState)
      → verdict ≢ ok tt
      → Fails R.invalid_argument_code s (checked_read verdict method s)
  unfolding checked_read validation_error_to_status
  checked_read-refused (ok tt) method s h = absurd (h refl)
  checked_read-refused (err e) method s h =
      (validation_error_to_status e, refl, R.code-invalid_argument _)

  -- An accepted message whose incident the store does not know.
  checked_write-unknown :
      {A : Type 0} (verdict : Verdict) (method : InnerState → Outcome A) (s : InnerState)
      (id : String)
      → verdict ≡ ok tt
      → method s ≡ (s, err (incident_not_found id))
      → Fails R.not_found_code s (checked_write verdict method s)
  unfolding checked_write store_error_to_status
  checked_write-unknown verdict method s id v h =
      (store_error_to_status (incident_not_found id), rw (v, checked_write, h), R.code-not_found _)

  checked_read-unknown :
      {A : Type 0} (verdict : Verdict) (method : InnerState → Result A StoreError) (s : InnerState)
      (id : String)
      → verdict ≡ ok tt
      → method s ≡ err (incident_not_found id)
      → Fails R.not_found_code s (checked_read verdict method s)
  unfolding checked_read store_error_to_status
  checked_read-unknown verdict method s id v h =
      (store_error_to_status (incident_not_found id), rw (v, checked_read, h), R.code-not_found _)

  -- A delta with a node or an edge that breaks a rule of the validation is answered by the code for
  -- an invalid argument, and nothing of it is stored.
  pub merge_hypothesis-refused :
      (q : R.Request Proto.HypothesisDelta) (s : InnerState)
      → ¬ (
          All Spec.IsValidNode (R.into_inner q).nodes × All Spec.IsValidEdge (R.into_inner q).edges)
      → Fails R.invalid_argument_code s (Handlers.merge_hypothesis q s)
  unfolding Handlers.merge_hypothesis
  merge_hypothesis-refused q s h =
      checked_write-refused _ _ s
        (λ v. h ((Spec.validate_hypothesis_delta-ok (R.into_inner q)).0 v))

  -- A request of tombstones that breaks a rule of the validation is answered by the code for an
  -- invalid argument, and no tombstone of it is stored, be it of nodes or of edges.
  pub merge_tombstones-refused :
      (q : R.Request Proto.NodeTombstoneRequest) (p : R.Request Proto.EdgeTombstoneRequest)
      (s : InnerState)
      → ¬ Requests.IsValidNodeTombstones (R.into_inner q)
      → ¬ Requests.IsValidEdgeTombstones (R.into_inner p)
      → Fails R.invalid_argument_code s (Handlers.merge_node_tombstones q s)
        × Fails R.invalid_argument_code s (Handlers.merge_edge_tombstones p s)
  unfolding Handlers.merge_node_tombstones Handlers.merge_edge_tombstones
  merge_tombstones-refused q p s h k = (
    checked_write-refused _ _ s
        (λ v. h ((Requests.validate_node_tombstone_request-ok (R.into_inner q)).0 v)),
    checked_write-refused _ _ s
        (λ v. k ((Requests.validate_edge_tombstone_request-ok (R.into_inner p)).0 v)),
  )

  -- A valid request of tombstones for an incident that the store does not have is answered by the
  -- code for what is not found, and the store stays as it is: the incident is not created.
  pub merge_tombstones-unknown :
      (q : R.Request Proto.NodeTombstoneRequest) (p : R.Request Proto.EdgeTombstoneRequest)
      (s : InnerState)
      → Requests.IsValidNodeTombstones (R.into_inner q)
      → Requests.IsValidEdgeTombstones (R.into_inner p)
      → get s.incidents (R.into_inner q).incident_id ≡ none
      → get s.incidents (R.into_inner p).incident_id ≡ none
      → Fails R.not_found_code s (Handlers.merge_node_tombstones q s)
        × Fails R.not_found_code s (Handlers.merge_edge_tombstones p s)
  unfolding Handlers.merge_node_tombstones Handlers.merge_edge_tombstones
  merge_tombstones-unknown q p s h k e f = (
    checked_write-unknown _ _ s _
        ((Requests.validate_node_tombstone_request-ok (R.into_inner q)).1 h)
        (merge_node_tombstones-none (R.into_inner q) s e),
    checked_write-unknown _ _ s _
        ((Requests.validate_edge_tombstone_request-ok (R.into_inner p)).1 k)
        (merge_edge_tombstones-none (R.into_inner p) s f),
  )

  -- The four calls that take no more than the id of an incident refuse the empty one as an invalid
  -- argument, and the store stays as it is.
  empty_incident_id-refused :
      (now : Option (ℕ × ℕ)) (c : R.Request Proto.CreateIncidentRequest)
      (q : R.Request Proto.IncidentContextRequest) (l : R.Request Proto.LiveViewRequest)
      (t : R.Request Proto.TombstoneRequest) (s : InnerState)
      → (R.into_inner c).incident_id ≡ ""
      → (R.into_inner q).incident_id ≡ ""
      → (R.into_inner l).incident_id ≡ ""
      → (R.into_inner t).incident_id ≡ ""
      → Fails R.invalid_argument_code s (Handlers.create_incident now c s)
        × Fails R.invalid_argument_code s (Handlers.get_incident_context q s)
        × Fails R.invalid_argument_code s (Handlers.get_live_view l s)
        × Fails R.invalid_argument_code s (Handlers.get_tombstones t s)
  unfolding Handlers.create_incident Handlers.get_incident_context Handlers.get_live_view
      Handlers.get_tombstones
  empty_incident_id-refused now c q l t s hc hq hl ht = (
    checked_write-refused _ _ s (λ v. validate_incident_id-ok _ v hc),
    checked_read-refused _ _ s (λ v. validate_incident_id-ok _ v hq),
    checked_read-refused _ _ s (λ v. validate_incident_id-ok _ v hl),
    checked_read-refused _ _ s (λ v. validate_incident_id-ok _ v ht),
  )

  pub incident_id_accepted : (id : String) → id ≢ "" → Validation.validate_incident_id id ≡ ok tt
  unfolding Validation.validate_incident_id
  incident_id_accepted id h = ground (arith, Spec.is_empty_iff id)

  -- The three calls that read an incident which the store does not have, by an id that is not
  -- empty, are answered by the code for what is not found, and the store stays as it is.
  pub reads-unknown :
      (q : R.Request Proto.IncidentContextRequest) (l : R.Request Proto.LiveViewRequest)
      (t : R.Request Proto.TombstoneRequest) (s : InnerState) (id : String)
      → (R.into_inner q).incident_id ≡ id
      → (R.into_inner l).incident_id ≡ id
      → (R.into_inner t).incident_id ≡ id
      → id ≢ ""
      → get s.incidents id ≡ none
      → Fails R.not_found_code s (Handlers.get_incident_context q s)
        × Fails R.not_found_code s (Handlers.get_live_view l s)
        × Fails R.not_found_code s (Handlers.get_tombstones t s)
  unfolding Handlers.get_incident_context Handlers.get_live_view Handlers.get_tombstones
      Incidents.get_incident_context Views.get_live_view Tombstones.get_tombstones
  reads-unknown q l t s id hq hl ht h e =
      let accepted = incident_id_accepted id h in
      (
        checked_read-unknown _ _ s id (rw hq accepted) (rw (hq, e, Incidents.get_incident_context)),
        checked_read-unknown _ _ s id (rw hl accepted) (rw (hl, e, Views.get_live_view)),
        checked_read-unknown _ _ s id (rw ht accepted) (rw (ht, e, Tombstones.get_tombstones)),
      )
