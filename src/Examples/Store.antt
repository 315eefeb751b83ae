-- ===== src/Examples/Store.antt =====
-- Runs of the store's methods, and the theorems about them at such runs.
use tee.Base.{
  All, ◌≡◌, refl, none, some, [], ◌∷◌, ◌++◌, ok, err, string_ord, string_key, pos, string_eq,
}
use tee.Collections.BTreeMap.{get, insert}
use tee.Proto
use tee.Domain.Edge.{edge_ord, edge_key}
use tee.Validation.{validate_hypothesis_delta}
use tee.Validation
use tee.Validation.Spec
use tee.Domain.Node
use tee.Domain.Types.{edge_type_key}
use tee.Domain.Edge
use tee.Base.Int.{show_int}
use tee.Convert.{
  edge_type_try_from, proto_edge_to_domain, show_conversion_error, node_type_try_from,
  proto_node_to_domain, invalid_node_type,
}
use tee.Store.Hypothesis.Stored.{IsStoredNode, IsStoredEdge, merge_hypothesis-stored}
use tee.Store.State.{InnerState, IncidentState, new, backend}
use tee.Store.Hypothesis
use tee.Store.Hypothesis.{merge_hypothesis, no_results}
use tee.Store.Hypothesis.Answer.{merge_hypothesis_cut, Converts}
use tee.Store.Incidents.{create_incident, timestamp_of}
use tee.Store.Views.{get_main_graph}
use tee.Store.Invariant.{IsValid}
use tee.Store.Invariant.Methods.{new-IsValid, merge_hypothesis-IsValid, create_incident-IsValid}
use tee.Store.Snapshot.{as_delta, get_main_graph-accepted, merge_hypothesis-main_graph}
use tee.Examples.Model.{lattices}
use tee.Examples.Data.{sample, make_node}

-- The empty store after `sample`, and that with an incident.
abbrev pub filled : InnerState
filled = (merge_hypothesis sample new).0

abbrev pub loaded : InnerState
loaded = (create_incident (some (7, 5)) "inc-1" filled).0

abbrev pub fresh : IncidentState
fresh = record {
  created_at = timestamp_of (some (7, 5));
  node_tombstones = [];
  edge_tombstones = [];
}

sample_accepted : validate_hypothesis_delta sample ≡ ok tt
unfolding validate_hypothesis_delta Validation.each Validation.validate_node
    Validation.validate_edge Validation.validate_provenance
sample_accepted = refl

filled-IsValid : IsValid filled
filled-IsValid =
    let (nodes, edges) = (Spec.validate_hypothesis_delta-ok sample).0 sample_accepted in
    merge_hypothesis-IsValid sample new nodes edges new-IsValid

pub loaded-IsValid : IsValid loaded
loaded-IsValid = create_incident-IsValid (some (7, 5)) "inc-1" filled (λ e. cc) filled-IsValid

pub filled-none : get filled.incidents "inc-1" ≡ none
unfolding get new Hypothesis.merge_nodes Hypothesis.merge_edges Hypothesis.merge_node
    Hypothesis.merge_edge Hypothesis.merge_hypothesis node_type_try_from proto_node_to_domain
filled-none = refl

pub loaded-some : get loaded.incidents "inc-1" ≡ some fresh
unfolding get new create_incident insert Hypothesis.merge_nodes Hypothesis.merge_edges
    Hypothesis.merge_node Hypothesis.merge_edge Hypothesis.merge_hypothesis node_type_try_from
    proto_node_to_domain string_key
loaded-some = refl

-- A store that another delta filled.
abbrev second : Proto.HypothesisDelta
second = record {
  nodes = make_node "n1" (pos 3) "svc" ∷ make_node "n3" (pos 4) "queue" ∷ [];
  edges = [];
}

abbrev pub other : InnerState
other = (merge_hypothesis second new).0

second_accepted : validate_hypothesis_delta second ≡ ok tt
unfolding validate_hypothesis_delta Validation.each Validation.validate_node
    Validation.validate_provenance
second_accepted = refl

pub other-IsValid : IsValid other
other-IsValid =
    let (nodes, edges) = (Spec.validate_hypothesis_delta-ok second).0 second_accepted in
    merge_hypothesis-IsValid second new nodes edges new-IsValid

-- The answer to a second `sample`.
abbrev merged : Proto.HypothesisMergeResult
merged = record { created_ids = []; merged_ids = "n2" ∷ "n1" ∷ "n1->n2:1" ∷ []; conflicts = [] }

merged-answer : (merge_hypothesis sample loaded).1 ≡ ok merged
unfolding get new create_incident insert Hypothesis.merge_nodes Hypothesis.merge_edges
    Hypothesis.merge_node Hypothesis.merge_edge Hypothesis.merge_hypothesis node_type_try_from
    proto_node_to_domain string_key edge_type_try_from proto_edge_to_domain Hypothesis.edge_id
    show_int edge_key edge_ord Edge.cmp Edge.new_key edge_type_key Node.has_conflict Node.merge
    Node.new Edge.merge
merged-answer = refl

get_main_graph-accepted_example :
    (g : Proto.CausalGraph) × (get_main_graph loaded ≡ ok g)
    × (validate_hypothesis_delta (as_delta g) ≡ ok tt)
get_main_graph-accepted_example = get_main_graph-accepted loaded loaded-IsValid

merge_hypothesis-main_graph_example :
    (g : Proto.CausalGraph) × (get_main_graph loaded ≡ ok g)
    × ((merge_hypothesis (as_delta g) loaded).0 ≡ loaded)
    × ((merge_hypothesis (as_delta g) new).0
        ≡ record new { nodes = loaded.nodes; edges = loaded.edges })
merge_hypothesis-main_graph_example = merge_hypothesis-main_graph loaded loaded-IsValid

-- The middle node of three has a type that is none.
known-Converts : Converts (make_node "n3" (pos 4) "queue")
unfolding proto_node_to_domain node_type_try_from
known-Converts = (_, refl)

odd-error : proto_node_to_domain (make_node "n4" (pos 99) "odd") ≡ err (invalid_node_type (pos 99))
unfolding proto_node_to_domain node_type_try_from
odd-error = refl

merge_hypothesis_cut_example :
    merge_hypothesis
      (record {
        nodes =
            (make_node "n3" (pos 4) "queue" ∷ [])
            ++ (make_node "n4" (pos 99) "odd" ∷ make_node "n5" (pos 1) "svc" ∷ []);
        edges = [];
      })
      loaded
    ≡ (
      (merge_hypothesis
          (record { nodes = make_node "n3" (pos 4) "queue" ∷ []; edges = [] })
          loaded).0,
      err (backend (show_conversion_error (invalid_node_type (pos 99)))),
    )
merge_hypothesis_cut_example =
    merge_hypothesis_cut (make_node "n3" (pos 4) "queue" ∷ []) (make_node "n4" (pos 99) "odd")
      (make_node "n5" (pos 1) "svc" ∷ []) [] loaded (invalid_node_type (pos 99))
      (known-Converts, tt) odd-error

merge_hypothesis-stored_example :
    All (IsStoredNode (merge_hypothesis sample loaded).0) sample.nodes
    × All (IsStoredEdge (merge_hypothesis sample loaded).0) sample.edges
merge_hypothesis-stored_example = merge_hypothesis-stored sample loaded merged merged-answer
