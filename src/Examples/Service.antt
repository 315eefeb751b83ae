-- ===== src/Examples/Service.antt =====
-- The theorems about the service at calls.
use tee.Base.{none, ◌⊎◌, ◌≡◌, ok, err, pos, refl, some, [], ◌∷◌, string_key}
use tee.Collections.BTreeMap.{get}
use tee.Proto
use tee.Validation
use tee.Validation.{validate_hypothesis_delta}
use tee.Validation.Spec
use tee.Validation.Requests
use tee.Convert.{ConversionError, show_conversion_error}
use tee.Service.Internal.{first_failure, merge_hypothesis-answered}
use tee.Store.State.{InnerState, new}
use tee.Service.Redelivery.{merge_hypothesis-redelivered}
use tee.Service.Liveness.{Succeeds, create_incident-answered}
use tee.Store.Invariant.{IsValid}
use tee.Store.Growth.{Grows}
use tee.Service.Handlers
use tee.Service.Server.{merges_hypothesis, serve, next, here}
use tee.Service.Invariant.{Reach-new-IsValid}
use tee.Service.Growth.{Reach-Grows}
use tee.Service.Errors.{
  Fails, merge_hypothesis-refused, merge_tombstones-refused, merge_tombstones-unknown,
  reads-unknown,
}
use tee.Examples.Model.{lattices, runtime}
use tee.Examples.Data.{sample, mixed, rival, make_node, agent, tombstones, edge_tombstones}
use tee.Examples.Store.{loaded}

Reach-new-IsValid_example : IsValid (serve (merges_hypothesis sample) new)
Reach-new-IsValid_example = Reach-new-IsValid (next here (merges_hypothesis sample) refl)

Reach-Grows_example : Grows loaded (serve (merges_hypothesis mixed) loaded)
Reach-Grows_example = Reach-Grows (next here (merges_hypothesis mixed) refl)

abbrev unnamed : Proto.HypothesisDelta
unnamed = record { nodes = make_node "" (pos 1) "svc" ∷ []; edges = [] }

merge_hypothesis-refused_example : Fails 3 loaded (Handlers.merge_hypothesis unnamed loaded)
merge_hypothesis-refused_example = merge_hypothesis-refused unnamed loaded (λ h. h.0.0.id refl)

-- Requests that name no incident.
abbrev no_incident : Proto.NodeTombstoneRequest
no_incident = record tombstones { incident_id = "" }

abbrev no_edge_incident : Proto.EdgeTombstoneRequest
no_edge_incident = record edge_tombstones { incident_id = "" }

merge_tombstones-refused_example :
    Fails 3 loaded (Handlers.merge_node_tombstones no_incident loaded)
    × Fails 3 loaded (Handlers.merge_edge_tombstones no_edge_incident loaded)
merge_tombstones-refused_example =
    merge_tombstones-refused no_incident no_edge_incident loaded (λ h. h.0 refl) (λ h. h.0 refl)

agent-IsValid : Requests.HasProvenance (some agent)
agent-IsValid = (agent, refl, record { source = λ e. cc; trigger = λ e. cc })

merge_tombstones-unknown_example :
    Fails 5 new (Handlers.merge_node_tombstones tombstones new)
    × Fails 5 new (Handlers.merge_edge_tombstones edge_tombstones new)
unfolding get new
merge_tombstones-unknown_example =
    merge_tombstones-unknown tombstones edge_tombstones new ((λ e. cc), (λ e. cc), agent-IsValid)
      (
        (λ e. cc),
        (λ e. cc),
        agent-IsValid,
        (
          record { source = λ e. cc; target = λ e. cc; type = λ e. cc },
          (record { source = λ e. cc; target = λ e. cc; type = λ e. cc }, tt),
        ),
      )
      refl refl

reads-unknown_example :
    Fails 5 new (Handlers.get_incident_context (record { incident_id = "inc-1" }) new)
    × Fails 5 new (Handlers.get_live_view (record { incident_id = "inc-1" }) new)
    × Fails 5 new (Handlers.get_tombstones (record { incident_id = "inc-1" }) new)
unfolding get new
reads-unknown_example =
    reads-unknown (record { incident_id = "inc-1" }) (record { incident_id = "inc-1" })
      (record { incident_id = "inc-1" }) new "inc-1" refl refl refl (λ e. cc) refl

rival_accepted : validate_hypothesis_delta rival ≡ ok tt
unfolding validate_hypothesis_delta Validation.each Validation.validate_node
    Validation.validate_edge Validation.validate_provenance
rival_accepted = refl

merge_hypothesis-answered_example :
    ((e : ConversionError) × (first_failure rival ≡ some e)
      × ((Handlers.merge_hypothesis rival loaded).1
          ≡ err (runtime.internal (show_conversion_error e))))
    ⊎ ((r : Proto.HypothesisMergeResult) × (first_failure rival ≡ none)
        × ((Handlers.merge_hypothesis rival loaded).1 ≡ ok (runtime.response_new r)))
merge_hypothesis-answered_example =
    merge_hypothesis-answered rival loaded
      ((Spec.validate_hypothesis_delta-ok rival).0 rival_accepted).0
      ((Spec.validate_hypothesis_delta-ok rival).0 rival_accepted).1

-- A call to create `inc-1`, and a delta after it.
abbrev crowded : InnerState
crowded =
    serve (merges_hypothesis sample)
      (Handlers.create_incident (some (7, 5)) (record { incident_id = "inc-1" }) new).0

create_incident-answered_example :
    Succeeds (Handlers.get_incident_context (record { incident_id = "inc-1" }) crowded)
    × Succeeds (Handlers.get_live_view (record { incident_id = "inc-1" }) crowded)
    × Succeeds (Handlers.get_tombstones (record { incident_id = "inc-1" }) crowded)
create_incident-answered_example =
    create_incident-answered (some (7, 5)) (record { incident_id = "inc-1" })
      (record { incident_id = "inc-1" }) (record { incident_id = "inc-1" })
      (record { incident_id = "inc-1" }) new crowded refl refl refl (λ e. cc)
      (next here (merges_hypothesis sample) refl)

merge_hypothesis-redelivered_example :
    (Handlers.merge_hypothesis mixed
      (serve (merges_hypothesis sample) (Handlers.merge_hypothesis mixed new).0)).0
    ≡ serve (merges_hypothesis sample) (Handlers.merge_hypothesis mixed new).0
merge_hypothesis-redelivered_example =
    merge_hypothesis-redelivered mixed new
      (serve (merges_hypothesis sample) (Handlers.merge_hypothesis mixed new).0)
      (next here (merges_hypothesis sample) refl)
