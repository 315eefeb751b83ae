-- ===== src/Service/Liveness.antt =====
-- service.rs: an incident that was created, through all the calls that follow.
use tee.Base.{
  ℕ, ◌≡◌, ◌≢◌, inl, inr, String, Option, some, Result, ok, Option-cases, string_key, string_ord,
}
use tee.Collections.BTreeMap.{get}
use tee.Collections.BTreeMap.Laws.{get-insert_self}
use tee.Lattices.{Lattices}
use tee.Proto
use tee.Validation.{Verdict}
use tee.Store.State.{InnerState, IncidentState, StoreError}
use tee.Store.Incidents
use tee.Store.Tombstones
use tee.Store.Views.Live.{get_live_view-some, live_graph}
use tee.Service.Runtime.{Runtime}
use tee.Service.Handlers
use tee.Service.Handlers.{Answer, checked_read, checked_write}
use tee.Service.Errors.{incident_id_accepted}
use tee.Service.Growth.{Reach-Grows}
use tee.Service.Server.{Reach}

module _ ⦃L : Lattices⦄ where
  create_incident-there :
      (now : Option (ℕ × ℕ)) (id : String) (s : InnerState)
      → (i : IncidentState) × (get (Incidents.create_incident now id s).0.incidents id ≡ some i)
  unfolding Incidents.create_incident
  create_incident-there now id s = elim (Option-cases (get s.incidents id)) [
    | inl h ↦ rw (h, Incidents.create_incident) (_, get-insert_self s.incidents id _)
    | inr (i, h) ↦ rw (h, Incidents.create_incident) (i, h)
  ]

-- The context of an incident.
abbrev context_of : String → IncidentState → Proto.IncidentContext
context_of id i = record {
  incident_id = id;
  created_at = some (record { seconds = i.created_at.0; nanos = i.created_at.1 });
  tombstones = some (Incidents.tombstone_set i);
}

module _ ⦃L : Lattices⦄ ⦃R : Runtime⦄ where
  -- The call succeeds.
  abbrev pub Succeeds : {A : Type 0} → Answer A → Type 0
  Succeeds {A} answer = (a : A) × (answer.1 ≡ ok (R.response_new a))

  checked_read-Succeeds :
      {A : Type 0} (verdict : Verdict) (method : InnerState → Result A StoreError) (s : InnerState)
      (a : A)
      → verdict ≡ ok tt
      → method s ≡ ok a
      → Succeeds (checked_read verdict method s)
  unfolding checked_read
  checked_read-Succeeds verdict method s a v h = (a, rw (v, checked_read, h))

  -- Once an incident is created under an id that is not empty, its context, its live view and its
  -- tombstones are answered after whatever calls follow: no call makes an incident go away.
  pub create_incident-answered :
      (now : Option (ℕ × ℕ)) (c : R.Request Proto.CreateIncidentRequest)
      (q : R.Request Proto.IncidentContextRequest) (l : R.Request Proto.LiveViewRequest)
      (t : R.Request Proto.TombstoneRequest) (s u : InnerState)
      → (R.into_inner q).incident_id ≡ (R.into_inner c).incident_id
      → (R.into_inner l).incident_id ≡ (R.into_inner c).incident_id
      → (R.into_inner t).incident_id ≡ (R.into_inner c).incident_id
      → (R.into_inner c).incident_id ≢ ""
      → Reach (Handlers.create_incident now c s).0 u
      → Succeeds (Handlers.get_incident_context q u)
        × Succeeds (Handlers.get_live_view l u)
        × Succeeds (Handlers.get_tombstones t u)
  unfolding Handlers.create_incident Handlers.get_incident_context Handlers.get_live_view
      Handlers.get_tombstones Incidents.get_incident_context Tombstones.get_tombstones checked_write
  create_incident-answered now c q l t s u hq hl ht h r =
      let id = (R.into_inner c).incident_id in
      let accepted = incident_id_accepted id h in
      let (i, there) = create_incident-there now id s in
      let start : get (Handlers.create_incident now c s).0.incidents id ≡ some i =
        rw (accepted, checked_write) there in
      let (j, e, _) = (Reach-Grows r).incidents id i start in
      (
        checked_read-Succeeds _ _ u (context_of id j) (rw hq accepted)
            (rw (hq, e, Incidents.get_incident_context)),
        checked_read-Succeeds _ _ u (live_graph j u) (rw hl accepted)
            (rw hl (get_live_view-some id u e)),
        checked_read-Succeeds _ _ u (Incidents.tombstone_set j) (rw ht accepted)
            (rw (ht, e, Tombstones.get_tombstones)),
      )
