-- ===== src/Service/Redelivery.antt =====
-- service.rs: a delta that arrives once more, after other calls.
use tee.Base.{
  ℕ, ◌≡◌, sym, subst, inl, inr, String, Option, Bool-cases, Option-cases, Result-cases, string_key,
  string_ord,
}
use tee.Collections.BTreeMap.{get, contains_key}
use tee.Lattices.{Lattices}
use tee.Proto
use tee.Validation
use tee.Domain.Edge.{edge_ord}
use tee.Store.State.{InnerState}
use tee.Store.Incidents.{create_incident}
use tee.Store.Tombstones.{merge_node_tombstones, merge_edge_tombstones}
use tee.Store.Tombstones.Laws.{
  merge_node_tombstones-some, merge_node_tombstones-none, merge_edge_tombstones-some,
  merge_edge_tombstones-none,
}
use tee.Store.Hypothesis.Absorbed.{
  IsAbsorbed, merge_hypothesis-idle, merge_hypothesis-IsAbsorbed, merge_hypothesis-keeps_absorbed,
}
use tee.Service.Runtime.{Runtime}
use tee.Service.Handlers
use tee.Service.Handlers.{checked_write}
use tee.Service.Invariant.{checked_write_cases, checked_read-state}
use tee.Service.Server.{
  Call, merges_hypothesis, creates_incident, gets_incident_context, merges_node_tombstones,
  merges_edge_tombstones, gets_live_view, gets_tombstones, gets_main_graph, serve, Reach, here,
  next,
}

module _ ⦃L : Lattices⦄ where
  -- Incidents do not matter to what is absorbed.
  create_incident-IsAbsorbed :
      (d : Proto.HypothesisDelta) (now : Option (ℕ × ℕ)) (id : String) (s : InnerState)
      → IsAbsorbed d s
      → IsAbsorbed d (create_incident now id s).0
  unfolding create_incident
  create_incident-IsAbsorbed d now id s a = elim (Bool-cases (contains_key s.incidents id)) [
    | inl e ↦ rw (e, create_incident) a
    | inr e ↦ rw (e, create_incident) (record { nodes = a.nodes; edges = a.edges })
  ]

  merge_node_tombstones-IsAbsorbed :
      (d : Proto.HypothesisDelta) (q : Proto.NodeTombstoneRequest) (s : InnerState)
      → IsAbsorbed d s
      → IsAbsorbed d (merge_node_tombstones q s).0
  merge_node_tombstones-IsAbsorbed d q s a = elim (Option-cases (get s.incidents q.incident_id)) [
    | inl h ↦ rw (merge_node_tombstones-none q s h) a
    | inr (i, h) ↦
        rw (merge_node_tombstones-some q s h) (record { nodes = a.nodes; edges = a.edges })
  ]

  merge_edge_tombstones-IsAbsorbed :
      (d : Proto.HypothesisDelta) (q : Proto.EdgeTombstoneRequest) (s : InnerState)
      → IsAbsorbed d s
      → IsAbsorbed d (merge_edge_tombstones q s).0
  merge_edge_tombstones-IsAbsorbed d q s a = elim (Option-cases (get s.incidents q.incident_id)) [
    | inl h ↦ rw (merge_edge_tombstones-none q s h) a
    | inr (i, h) ↦
        rw (merge_edge_tombstones-some q s h) (record { nodes = a.nodes; edges = a.edges })
  ]

module _ ⦃L : Lattices⦄ ⦃R : Runtime⦄ where
  serve-IsAbsorbed :
      (d : Proto.HypothesisDelta) (c : Call) (s : InnerState)
      → IsAbsorbed d s
      → IsAbsorbed d (serve c s)
  unfolding serve Handlers.merge_hypothesis Handlers.create_incident Handlers.get_incident_context
      Handlers.merge_node_tombstones Handlers.merge_edge_tombstones Handlers.get_live_view
      Handlers.get_tombstones Handlers.get_main_graph
  serve-IsAbsorbed d (merges_hypothesis q) s a =
      checked_write_cases (IsAbsorbed d) _ _ s a (λ _. merge_hypothesis-keeps_absorbed d _ s a)
  serve-IsAbsorbed d (creates_incident now q) s a =
      checked_write_cases (IsAbsorbed d) _ _ s a (λ _. create_incident-IsAbsorbed d now _ s a)
  serve-IsAbsorbed d (gets_incident_context q) s a = rw checked_read-state a
  serve-IsAbsorbed d (merges_node_tombstones q) s a =
      checked_write_cases (IsAbsorbed d) _ _ s a (λ _. merge_node_tombstones-IsAbsorbed d _ s a)
  serve-IsAbsorbed d (merges_edge_tombstones q) s a =
      checked_write_cases (IsAbsorbed d) _ _ s a (λ _. merge_edge_tombstones-IsAbsorbed d _ s a)
  serve-IsAbsorbed d (gets_live_view q) s a = rw checked_read-state a
  serve-IsAbsorbed d (gets_tombstones q) s a = rw checked_read-state a
  serve-IsAbsorbed d (gets_main_graph q) s a = a

  Reach-IsAbsorbed :
      (d : Proto.HypothesisDelta) {s t : InnerState} → Reach s t → IsAbsorbed d s → IsAbsorbed d t
  Reach-IsAbsorbed d here a = a
  Reach-IsAbsorbed d (next r c e) a =
      subst (IsAbsorbed d) (sym e) (serve-IsAbsorbed d c _ (Reach-IsAbsorbed d r a))

  -- A delta that was sent once changes nothing when it is sent again, whatever calls came in
  -- between: also where some of its nodes were refused for a conflict, where the call ended with an
  -- error, and where the validation refused it.
  pub merge_hypothesis-redelivered :
      (q : R.Request Proto.HypothesisDelta) (s t : InnerState)
      → Reach (Handlers.merge_hypothesis q s).0 t
      → (Handlers.merge_hypothesis q t).0 ≡ t
  unfolding Handlers.merge_hypothesis checked_write
  merge_hypothesis-redelivered q s t r =
      let d = R.into_inner q in
      elim (Result-cases (Validation.validate_hypothesis_delta d)) [
        | inl (_, e) ↦
            let start : IsAbsorbed d (Handlers.merge_hypothesis q s).0 =
              rw (e, checked_write) (merge_hypothesis-IsAbsorbed d s) in
            rw (e, checked_write) (merge_hypothesis-idle d t (Reach-IsAbsorbed d r start))
        | inr (_, e) ↦ rw (e, checked_write)
      ]
