-- ===== src/Reference/Service.antt =====
-- README.md, "API": the calls that write, on the reference store. What a message must have is as in
-- schema/validation.rs, whose functions are called. The status of a failure is stated here.
use Prim.Native.String.{◌++◌}
use tee.Base.{ℕ, Option, Result, ok, err}
use tee.Lattices.{Lattices}
use tee.Proto
use tee.Validation
use tee.Validation.{Verdict}
use tee.Store.State.{StoreError, incident_not_found, backend}
use tee.Service.Runtime.{Runtime}
use tee.Service.Server.{
  Call, merges_hypothesis, creates_incident, gets_incident_context, merges_node_tombstones,
  merges_edge_tombstones, gets_live_view, gets_tombstones, gets_main_graph,
}
use tee.Reference.{Graph}
use tee.Reference.Hypothesis
use tee.Reference.Tombstones

module _ ⦃R : Runtime⦄ where
  abbrev pub Answer : Type 0 → Type 0
  Answer A = Graph × Result (R.Response A) R.Status

  -- A result is a response; an incident that is not there, and a failure inside, have their codes.
  abbrev pub answered : {A : Type 0} → Result A StoreError → Result (R.Response A) R.Status
  answered (ok a) = ok (R.response_new a)
  answered (err (incident_not_found id)) = err (R.not_found ("incident not found: " ++ id))
  answered (err (backend message)) = err (R.internal message)

  unfoldable pub checked :
      {A : Type 0} → Verdict → (Graph → Graph × Result A StoreError) → Graph → Answer A
  checked (err e) method g =
      (g, err (R.invalid_argument (Validation.show_validation_error R.debug e)))
  checked (ok _) method g = let (g', result) = method g in (g', answered result)

  unfoldable pub merge_hypothesis :
      R.Request Proto.HypothesisDelta → Graph → Answer Proto.HypothesisMergeResult
  merge_hypothesis q =
      let d = R.into_inner q in
      checked (Validation.validate_hypothesis_delta d) (Hypothesis.merge_hypothesis d)

  unfoldable pub create_incident :
      Option (ℕ × ℕ)
      → R.Request Proto.CreateIncidentRequest
      → Graph
      → Answer Proto.CreateIncidentResult
  create_incident now q =
      let id = (R.into_inner q).incident_id in
      checked (Validation.validate_incident_id id) (Tombstones.create_incident now id)

  unfoldable pub merge_node_tombstones :
      R.Request Proto.NodeTombstoneRequest → Graph → Answer Proto.TombstoneMergeResult
  merge_node_tombstones q =
      let r = R.into_inner q in
      checked (Validation.validate_node_tombstone_request r) (Tombstones.merge_node_tombstones r)

  unfoldable pub merge_edge_tombstones :
      R.Request Proto.EdgeTombstoneRequest → Graph → Answer Proto.TombstoneMergeResult
  merge_edge_tombstones q =
      let r = R.into_inner q in
      checked (Validation.validate_edge_tombstone_request r) (Tombstones.merge_edge_tombstones r)

module _ ⦃L : Lattices⦄ ⦃R : Runtime⦄ where
  -- The graph that a call leaves behind.
  unfoldable pub serve : Call → Graph → Graph
  serve (merges_hypothesis q) g = (merge_hypothesis q g).0
  serve (creates_incident now q) g = (create_incident now q g).0
  serve (gets_incident_context q) g = g
  serve (merges_node_tombstones q) g = (merge_node_tombstones q g).0
  serve (merges_edge_tombstones q) g = (merge_edge_tombstones q g).0
  serve (gets_live_view q) g = g
  serve (gets_tombstones q) g = g
  serve (gets_main_graph q) g = g
