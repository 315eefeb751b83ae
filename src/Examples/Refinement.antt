-- ===== src/Examples/Refinement.antt =====
-- The theorems that compare the store with the reference store, at the example store.
use tee.Base.{
  List, pos, [], ◌∷◌, refl, ◌≡◌, ◌||◌, ap, some, false, ok, String, string_key, string_ord,
}
use tee.Collections.BTreeSet.{contains}
use tee.Collections.BTreeSet.Laws.{has}
use mathlib.Core.Option
use tee.Proto
use tee.Domain.Edge.{EdgeKey, edge_ord, edge_key}
use tee.Store.State.{new}
use tee.Store.Incidents.{get_incident_context}
use tee.Store.Tombstones.{get_tombstones}
use tee.Store.Views.{get_live_view, get_main_graph}
use tee.Service.Handlers
use tee.Base.Fold.{fold_all}
use tee.Service.Server.{
  Call, serve, merges_hypothesis, creates_incident, merges_node_tombstones, merges_edge_tombstones,
  gets_live_view,
}
use tee.Reference.{empty}
use tee.Reference.Service
use tee.Refinement.{view, view_incident}
use tee.Refinement.Reads.{Shows, get_live_view-refines, get_main_graph-refines}
use tee.Refinement.Buried.{named, get_tombstones-refines}
use tee.Refinement.Service.{shown, writes-refine, calls-refine}
use tee.Refinement.Commute.{Compatible, SameOutline}
use tee.Refinement.Convergence.{send, swap, send-converges}
use tee.Refinement.Fates.{created_of, merged_of, conflicts_of}
use tee.Refinement.Answer.{fates, merge_hypothesis-fates}
use tee.Store.Hypothesis
use tee.Collections.BTreeMap.{get, insert}
use tee.Store.Incidents.{create_incident}
use tee.Convert.{node_type_try_from, proto_node_to_domain, edge_type_try_from, proto_edge_to_domain}
use tee.Base.Int.{show_int}
use tee.Domain.Node
use tee.Domain.Edge
use tee.Domain.Types.{edge_type_key}
use tee.Base.{map, ◌++◌}
use tee.Examples.Model.{lattices, runtime}
use tee.Examples.Data.{
  differ, rival, make_node, make_edge, sample, mixed, tombstones, edge_tombstones,
}
use tee.Examples.Store.{loaded, fresh, loaded-some, loaded-IsValid}

-- The incident of the example store as it is seen.
loaded-seen : (view loaded).incidents "inc-1" ≡ some (view_incident fresh)
loaded-seen = ap (Option.map view_incident) loaded-some

writes-refine_example :
    (shown (Handlers.merge_hypothesis mixed loaded) ≡ Service.merge_hypothesis mixed (view loaded))
    × (shown (Handlers.create_incident (some (9, 1)) (record { incident_id = "inc-2" }) loaded)
        ≡ Service.create_incident (some (9, 1)) (record { incident_id = "inc-2" }) (view loaded))
    × (shown (Handlers.merge_node_tombstones tombstones loaded)
        ≡ Service.merge_node_tombstones tombstones (view loaded))
    × (shown (Handlers.merge_edge_tombstones edge_tombstones loaded)
        ≡ Service.merge_edge_tombstones edge_tombstones (view loaded))
writes-refine_example =
    writes-refine (some (9, 1)) mixed (record { incident_id = "inc-2" }) tombstones edge_tombstones
      loaded loaded-IsValid

-- A delta, an incident, tombstones, a delta that clashes, and a read.
abbrev calls : List Call
calls =
    merges_hypothesis sample
    ∷ creates_incident (some (7, 5)) (record { incident_id = "inc-1" })
    ∷ merges_node_tombstones tombstones
    ∷ merges_edge_tombstones edge_tombstones
    ∷ merges_hypothesis mixed
    ∷ gets_live_view (record { incident_id = "inc-1" })
    ∷ []

calls-refine_example : view (fold_all serve calls new) ≡ fold_all Service.serve calls empty
calls-refine_example = calls-refine calls

get_live_view-refines_example :
    (g : Proto.CausalGraph) × (get_live_view "inc-1" loaded ≡ ok g)
    × Shows g (view loaded) (contains fresh.node_tombstones) (λ k.
      contains fresh.edge_tombstones k
      || contains fresh.node_tombstones k.source
      || contains fresh.node_tombstones k.target)
get_live_view-refines_example =
    get_live_view-refines "inc-1" loaded (view_incident fresh) loaded-IsValid loaded-seen

get_main_graph-refines_example :
    (g : Proto.CausalGraph) × (get_main_graph loaded ≡ ok g)
    × Shows g (view loaded) (λ id. false) (λ k. false)
get_main_graph-refines_example = get_main_graph-refines loaded loaded-IsValid

get_tombstones-refines_example :
    (r : Proto.TombstoneSet) × (get_tombstones "inc-1" loaded ≡ ok r)
    × ((y : String) → has r.node_ids y ≡ contains fresh.node_tombstones y)
    × ((k : EdgeKey) → named r.edge_entries k ≡ contains fresh.edge_tombstones k)
    × (get_incident_context "inc-1" loaded
        ≡ ok (record {
          incident_id = "inc-1";
          created_at = some (record { seconds = fresh.created_at.0; nanos = fresh.created_at.1 });
          tombstones = some r;
        }))
get_tombstones-refines_example =
    get_tombstones-refines "inc-1" loaded (view_incident fresh) loaded-IsValid loaded-seen

-- A delta that shares a node with `sample`, and has the same type and label for it.
abbrev kindred : Proto.HypothesisDelta
kindred = record {
  nodes = make_node "n3" (pos 4) "queue" ∷ make_node "n1" (pos 1) "svc" ∷ [];
  edges = make_edge "n1" "n2" (pos 1) ∷ make_edge "n3" "n1" (pos 2) ∷ [];
}

sample-kindred : Compatible sample kindred
sample-kindred = (
  ((λ e. absurd (differ "n2" "n3" refl e)), ((λ e. absurd (differ "n2" "n1" refl e)), tt)),
  (((λ e. absurd (differ "n1" "n3" refl e)), ((λ e. (refl, refl)), tt)), tt),
)

-- `mixed` clashes with `kindred` and stays behind both.
send-converges_example :
    SameOutline
      (view (send (sample ∷ kindred ∷ mixed ∷ []) loaded))
      (view (send (kindred ∷ sample ∷ mixed ∷ []) loaded))
send-converges_example =
    send-converges loaded loaded-IsValid
      (swap {p = sample} {q = kindred} {qs = mixed ∷ []} sample-kindred)

-- The answer to `rival`.
abbrev answer : Proto.HypothesisMergeResult
answer = record {
  created_ids = "n3" ∷ "n3->n1:1" ∷ [];
  merged_ids = "n2" ∷ "n1->n2:1" ∷ [];
  conflicts =
      record { id = "n1"; field = "label"; existing_value = "svc"; proposed_value = "" }
      ∷ record { id = "n3"; field = "type"; existing_value = "SERVICE"; proposed_value = "" }
      ∷ [];
}

rival-answer : (Hypothesis.merge_hypothesis rival loaded).1 ≡ ok answer
unfolding get new create_incident insert Hypothesis.merge_nodes Hypothesis.merge_edges
    Hypothesis.merge_node Hypothesis.merge_edge Hypothesis.merge_hypothesis node_type_try_from
    proto_node_to_domain string_key edge_type_try_from proto_edge_to_domain Hypothesis.edge_id
    show_int edge_key edge_ord Edge.cmp Edge.new_key edge_type_key Node.has_conflict Node.merge
    Node.new Edge.merge Node.conflict_field Hypothesis.conflict_report Hypothesis.existing_value
rival-answer = refl

merge_hypothesis-fates_example :
    (answer.created_ids ≡ created_of (fates rival loaded))
    × (answer.merged_ids ≡ merged_of (fates rival loaded))
    × (answer.conflicts ≡ conflicts_of (fates rival loaded))
    × (map (λ f. f.0) (fates rival loaded)
        ≡ map (λ n. n.id) rival.nodes ++ map Hypothesis.edge_id rival.edges)
merge_hypothesis-fates_example =
    merge_hypothesis-fates rival loaded answer loaded-IsValid rival-answer
