-- ===== src/Service/Server.antt =====
-- The running server. The lock makes each call one step, so whatever the clients do at the same
-- time is some sequence of calls.
use tee.Base.{ℕ, ◌≡◌, Option}
use tee.Lattices.{Lattices}
use tee.Proto
use tee.Store.State.{InnerState}
use tee.Service.Runtime.{Runtime}
use tee.Service.Handlers

module _ ⦃L : Lattices⦄ ⦃R : Runtime⦄ where
  -- A call of one of the eight methods, with what the clock shows where it is read.
  pub data Call : Type 0 where
    merges_hypothesis : R.Request Proto.HypothesisDelta → Call
    creates_incident : Option (ℕ × ℕ) → R.Request Proto.CreateIncidentRequest → Call
    gets_incident_context : R.Request Proto.IncidentContextRequest → Call
    merges_node_tombstones : R.Request Proto.NodeTombstoneRequest → Call
    merges_edge_tombstones : R.Request Proto.EdgeTombstoneRequest → Call
    gets_live_view : R.Request Proto.LiveViewRequest → Call
    gets_tombstones : R.Request Proto.TombstoneRequest → Call
    gets_main_graph : R.Request (Unit {0}) → Call

  -- The state that a call leaves behind.
  unfoldable pub serve : Call → InnerState → InnerState
  serve (merges_hypothesis q) s = (Handlers.merge_hypothesis q s).0
  serve (creates_incident now q) s = (Handlers.create_incident now q s).0
  serve (gets_incident_context q) s = (Handlers.get_incident_context q s).0
  serve (merges_node_tombstones q) s = (Handlers.merge_node_tombstones q s).0
  serve (merges_edge_tombstones q) s = (Handlers.merge_edge_tombstones q s).0
  serve (gets_live_view q) s = (Handlers.get_live_view q s).0
  serve (gets_tombstones q) s = (Handlers.get_tombstones q s).0
  serve (gets_main_graph q) s = (Handlers.get_main_graph q s).0

  -- The states that calls lead to from a state.
  pub data Reach (s : InnerState) : InnerState → Type 0 where
    here : Reach s s
    next : {t u : InnerState} → Reach s t → (c : Call) → u ≡ serve c t → Reach s u
