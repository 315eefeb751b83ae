-- ===== src/Service/Growth.antt =====
-- service.rs: the states before and after calls, compared.
use tee.Base.{sym, subst}
use tee.Lattices.{Lattices}
use tee.Store.State.{InnerState}
use tee.Store.Growth.{Grows, Grows-refl, Grows-trans}
use tee.Store.Growth.Methods.{
  merge_hypothesis-Grows, create_incident-Grows, merge_node_tombstones-Grows,
  merge_edge_tombstones-Grows,
}
use tee.Service.Runtime.{Runtime}
use tee.Service.Handlers
use tee.Service.Invariant.{checked_write_cases, checked_read-state}
use tee.Service.Server.{
  Call, merges_hypothesis, creates_incident, gets_incident_context, merges_node_tombstones,
  merges_edge_tombstones, gets_live_view, gets_tombstones, gets_main_graph, serve, Reach, here,
  next,
}

module _ ⦃L : Lattices⦄ ⦃R : Runtime⦄ where
  serve-Grows : (c : Call) (s : InnerState) → Grows s (serve c s)
  unfolding serve Handlers.merge_hypothesis Handlers.create_incident Handlers.get_incident_context
      Handlers.merge_node_tombstones Handlers.merge_edge_tombstones Handlers.get_live_view
      Handlers.get_tombstones Handlers.get_main_graph
  serve-Grows (merges_hypothesis q) s =
      checked_write_cases (Grows s) _ _ s (Grows-refl s) (λ _. merge_hypothesis-Grows _ s)
  serve-Grows (creates_incident now q) s =
      checked_write_cases (Grows s) _ _ s (Grows-refl s) (λ _. create_incident-Grows now _ s)
  serve-Grows (gets_incident_context q) s = rw checked_read-state (Grows-refl s)
  serve-Grows (merges_node_tombstones q) s =
      checked_write_cases (Grows s) _ _ s (Grows-refl s) (λ _. merge_node_tombstones-Grows _ s)
  serve-Grows (merges_edge_tombstones q) s =
      checked_write_cases (Grows s) _ _ s (Grows-refl s) (λ _. merge_edge_tombstones-Grows _ s)
  serve-Grows (gets_live_view q) s = rw checked_read-state (Grows-refl s)
  serve-Grows (gets_tombstones q) s = rw checked_read-state (Grows-refl s)
  serve-Grows (gets_main_graph q) s = Grows-refl s

  -- Whatever calls lie between two states, every node, edge and incident of the first is in the
  -- second: a node with the same type and label, and confirmed if it was; a node or an edge with
  -- each stored provenance entry as it is stored; an incident with its time and all its tombstones.
  pub Reach-Grows : {s t : InnerState} → Reach s t → Grows s t
  Reach-Grows {s} here = Grows-refl s
  Reach-Grows {s} (next {t = t} r c e) =
      subst (Grows s) (sym e) (Grows-trans s t (serve c t) (Reach-Grows r) (serve-Grows c t))
