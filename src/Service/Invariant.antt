-- ===== src/Service/Invariant.antt =====
-- service.rs: the invariant of the store at the calls.
use tee.Base.{◌≡◌, refl, sym, subst, ◌≢◌, Result, ok, err, arith, String}
use tee.Lattices.{Lattices}
use tee.Validation
use tee.Validation.{Verdict}
use tee.Validation.Spec
use tee.Store.State.{InnerState, Outcome, StoreError, new}
use tee.Store.Invariant.{IsValid}
use tee.Store.Invariant.Methods.{
  new-IsValid, merge_hypothesis-IsValid, create_incident-IsValid, merge_node_tombstones-IsValid,
  merge_edge_tombstones-IsValid,
}
use tee.Service.Runtime.{Runtime}
use tee.Service.Handlers
use tee.Service.Handlers.{checked_write, checked_read}
use tee.Service.Server.{
  Call, merges_hypothesis, creates_incident, gets_incident_context, merges_node_tombstones,
  merges_edge_tombstones, gets_live_view, gets_tombstones, gets_main_graph, serve, Reach, here,
  next,
}

module _ ⦃L : Lattices⦄ ⦃R : Runtime⦄ where
  -- A handler that writes changes the state only where the message is accepted, and then as the
  -- method does.
  pub checked_write_cases {ℓ} :
      {A : Type 0} (P : InnerState → Type ℓ) (verdict : Verdict) (method : InnerState → Outcome A)
      (s : InnerState)
      → P s
      → (verdict ≡ ok tt → P (method s).0)
      → P (checked_write verdict method s).0
  unfolding checked_write
  checked_write_cases P (ok tt) method s p q = q refl
  checked_write_cases P (err e) method s p q = p

  pub checked_read-state :
      {A : Type 0} (verdict : Verdict) (method : InnerState → Result A StoreError) (s : InnerState)
      → (checked_read verdict method s).0 ≡ s
  unfolding checked_read
  checked_read-state (ok tt) method s = refl
  checked_read-state (err e) method s = refl

  pub validate_incident_id-ok : (id : String) → Validation.validate_incident_id id ≡ ok tt → id ≢ ""
  unfolding Validation.validate_incident_id
  validate_incident_id-ok id h = λ e. ground (arith, Spec.is_empty_iff id)

  -- Each call keeps the invariant.
  pub serve-IsValid : (c : Call) (s : InnerState) → IsValid s → IsValid (serve c s)
  unfolding serve Handlers.merge_hypothesis Handlers.create_incident Handlers.get_incident_context
      Handlers.merge_node_tombstones Handlers.merge_edge_tombstones Handlers.get_live_view
      Handlers.get_tombstones Handlers.get_main_graph
  serve-IsValid (merges_hypothesis q) s v =
      let d = R.into_inner q in
      checked_write_cases IsValid _ _ s v (λ h.
        let (nodes, edges) = (Spec.validate_hypothesis_delta-ok d).0 h in
        merge_hypothesis-IsValid d s nodes edges v)
  serve-IsValid (creates_incident now q) s v =
      checked_write_cases IsValid _ _ s v
        (λ h. create_incident-IsValid now _ s (validate_incident_id-ok _ h) v)
  serve-IsValid (gets_incident_context q) s v = rw (checked_read-state) v
  serve-IsValid (merges_node_tombstones q) s v =
      checked_write_cases IsValid _ _ s v (λ _. merge_node_tombstones-IsValid _ s v)
  serve-IsValid (merges_edge_tombstones q) s v =
      checked_write_cases IsValid _ _ s v (λ _. merge_edge_tombstones-IsValid _ s v)
  serve-IsValid (gets_live_view q) s v = rw (checked_read-state) v
  serve-IsValid (gets_tombstones q) s v = rw (checked_read-state) v
  serve-IsValid (gets_main_graph q) s v = v

  Reach-IsValid : {s t : InnerState} → Reach s t → IsValid s → IsValid t
  Reach-IsValid here v = v
  Reach-IsValid (next r c e) v = subst IsValid (sym e) (serve-IsValid c _ (Reach-IsValid r v))

  -- Every state that calls can lead to from the start is valid: its maps and sets are in order,
  -- its nodes are without conflict and complete, its edges join different nodes.
  pub Reach-new-IsValid : {s : InnerState} → Reach new s → IsValid s
  Reach-new-IsValid r = Reach-IsValid r new-IsValid
