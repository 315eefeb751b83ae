-- ===== src/Refinement/Service.antt =====
-- service.rs against the calls on the reference store.
use tee.Base.{List, [], ◌∷◌, ℕ, ◌≡◌, refl, ap, ◌∙◌, Option, Result, ok, err, string_key, string_ord}
use tee.Collections.BTreeMap
use tee.Lattices.{Lattices}
use tee.Proto
use tee.Validation.{Verdict}
use tee.Domain.Edge.{edge_ord, edge_key}
use tee.Store.State.{InnerState, Outcome, StoreError, new, incident_not_found, backend}
use tee.Store.Invariant.{IsValid}
use tee.Service.Runtime.{Runtime}
use tee.Service.Handlers
use tee.Service.Handlers.{checked_write, Answer}
use tee.Base.Fold.{fold_all}
use tee.Store.Invariant.Methods.{new-IsValid}
use tee.Service.Invariant.{serve-IsValid, checked_read-state}
use tee.Service.Server.{
  Call, merges_hypothesis, creates_incident, gets_incident_context, merges_node_tombstones,
  merges_edge_tombstones, gets_live_view, gets_tombstones, gets_main_graph,
}
use tee.Service.Server
use tee.Reference.{Graph, empty}
use tee.Reference.Service
use tee.Reference.Service.{checked, answered}
use tee.Refinement.{view}
use tee.Refinement.Entries.{IsComplete-valid}
use tee.Refinement.Methods.{
  seen, merge_hypothesis-refines, create_incident-refines, merge_node_tombstones-refines,
  merge_edge_tombstones-refines,
}

module _ ⦃L : Lattices⦄ ⦃R : Runtime⦄ where
  -- The view of what a handler leaves behind, and its answer.
  abbrev pub shown : {A : Type 0} → Answer A → Graph × Result (R.Response A) R.Status
  shown o = (view o.0, o.1)

  respond-answered : {A : Type 0} (r : Result A StoreError) → Handlers.respond r ≡ answered r
  unfolding Handlers.store_error_to_status
  respond-answered (ok a) = refl
  respond-answered (err (incident_not_found id)) = refl
  respond-answered (err (backend message)) = refl

  checked_write-refines :
      {A : Type 0} (verdict : Verdict) (method : InnerState → Outcome A)
      (reference : Graph → Graph × Result A StoreError) (s : InnerState)
      → seen (method s) ≡ reference (view s)
      → shown (checked_write verdict method s) ≡ checked verdict reference (view s)
  unfolding checked_write checked Handlers.validation_error_to_status
  checked_write-refines (err e) method reference s h = refl
  checked_write-refines (ok _) method reference s h = ap (λ o. (o.0, Handlers.respond o.1)) h ∙ λ i.
      ((reference (view s)).0, respond-answered (reference (view s)).1 i)

  -- In a valid store each of the four calls that write does what the same call of the reference
  -- store of partial maps does: the state that it leaves behind is seen as the graph that the
  -- reference leaves behind, and the two give the same answer, be it a result or an error.
  pub writes-refine :
      (now : Option (ℕ × ℕ)) (d : R.Request Proto.HypothesisDelta)
      (c : R.Request Proto.CreateIncidentRequest) (q : R.Request Proto.NodeTombstoneRequest)
      (p : R.Request Proto.EdgeTombstoneRequest) (s : InnerState)
      → IsValid s
      → (shown (Handlers.merge_hypothesis d s) ≡ Service.merge_hypothesis d (view s))
        × (shown (Handlers.create_incident now c s) ≡ Service.create_incident now c (view s))
        × (shown (Handlers.merge_node_tombstones q s) ≡ Service.merge_node_tombstones q (view s))
        × (shown (Handlers.merge_edge_tombstones p s) ≡ Service.merge_edge_tombstones p (view s))
  unfolding Handlers.merge_hypothesis Handlers.create_incident Handlers.merge_node_tombstones
      Handlers.merge_edge_tombstones Service.merge_hypothesis Service.create_incident
      Service.merge_node_tombstones Service.merge_edge_tombstones
  writes-refine now d c q p s v =
      let complete = IsComplete-valid s.nodes v.nodes_valid in
      (
        checked_write-refines _ _ _ s (merge_hypothesis-refines _ s complete),
        checked_write-refines _ _ _ s (create_incident-refines now _ s),
        checked_write-refines _ _ _ s (merge_node_tombstones-refines _ s complete),
        checked_write-refines _ _ _ s (merge_edge_tombstones-refines _ s),
      )

  serve-refines :
      (c : Call) (s : InnerState) → IsValid s → view (Server.serve c s) ≡ Service.serve c (view s)
  unfolding Server.serve Service.serve Handlers.merge_hypothesis Handlers.create_incident
      Handlers.merge_node_tombstones Handlers.merge_edge_tombstones Handlers.get_live_view
      Handlers.get_tombstones Handlers.get_main_graph Handlers.get_incident_context
      Service.merge_hypothesis Service.create_incident Service.merge_node_tombstones
      Service.merge_edge_tombstones
  serve-refines (merges_hypothesis q) s v =
      ap (λ o. o.0)
        (checked_write-refines _ _ _ s
          (merge_hypothesis-refines _ s (IsComplete-valid s.nodes v.nodes_valid)))
  serve-refines (creates_incident now q) s v =
      ap (λ o. o.0) (checked_write-refines _ _ _ s (create_incident-refines now _ s))
  serve-refines (merges_node_tombstones q) s v =
      ap (λ o. o.0)
        (checked_write-refines _ _ _ s
          (merge_node_tombstones-refines _ s (IsComplete-valid s.nodes v.nodes_valid)))
  serve-refines (merges_edge_tombstones q) s v =
      ap (λ o. o.0) (checked_write-refines _ _ _ s (merge_edge_tombstones-refines _ s))
  serve-refines (gets_incident_context q) s v = ap view (checked_read-state _ _ s)
  serve-refines (gets_live_view q) s v = ap view (checked_read-state _ _ s)
  serve-refines (gets_tombstones q) s v = ap view (checked_read-state _ _ s)
  serve-refines (gets_main_graph q) s v = refl

  view-new : view new ≡ empty
  unfolding new BTreeMap.get
  view-new = refl

  pub serve_all-refines :
      (cs : List Call) (s : InnerState)
      → IsValid s
      → view (fold_all Server.serve cs s) ≡ fold_all Service.serve cs (view s)
  unfolding fold_all
  serve_all-refines [] s v = refl
  serve_all-refines (c ∷ cs) s v =
      serve_all-refines cs (Server.serve c s) (serve-IsValid c s v)
      ∙ ap (fold_all Service.serve cs) (serve-refines c s v)

  -- Whatever calls a new server answers one after the other, its state is seen as the graph that the
  -- same calls make of the empty graph in the reference store.
  pub calls-refine :
      (cs : List Call) → view (fold_all Server.serve cs new) ≡ fold_all Service.serve cs empty
  calls-refine cs = serve_all-refines cs new new-IsValid ∙ ap (fold_all Service.serve cs) view-new
