-- ===== src/Examples/Tombstones.antt =====
-- The theorems about tombstones and incidents at the example store.
use tee.Base.{
  ◌⊎◌, err, none, length, refl, ◌≡◌, some, true, false, not, ◌&&◌, ◌||◌, String, [], ◌∷◌, ok,
  filter, string_ord, string_key,
}
use tee.Base.Fold.{fold_all}
use tee.Collections.BTreeSet.{contains, extend}
use tee.Collections.BTreeSet.Laws.{has}
use tee.Proto
use tee.Store.State.{backend, InnerState}
use tee.Store.Incidents.{create_incident, timestamp_of, get_incident_context}
use tee.Store.Tombstones.{merge_node_tombstones, merge_edge_tombstones, no_tombstones}
use tee.Store.Tombstones.Nodes.{Reports}
use tee.Store.Tombstones.Laws.{
  with_edges, merge_edge_tombstones_lem, with_nodes, merge_node_tombstones_lem,
}
use tee.Store.Tombstones.Repeat.{merge_tombstones_twice}
use tee.Store.Tombstones.Order.{of_nodes, of_edges, apply, apply_all-Reordered, swap}
use tee.Store.Views.{get_live_view, get_main_graph}
use tee.Domain.Edge.{EdgeKey, edge_ord}
use tee.Convert.{ConversionError, show_conversion_error}
use tee.Store.Tombstones.Edges.{taken, refusal, reported}
use tee.Store.Views.Live.{
  names, get_live_view-merge_edge_tombstones, get_live_view-merge_node_tombstones, live_graph,
  get_live_view-some,
}
use tee.Store.Views.Isolation.{LooksSame, incidents-LooksSame, create_incident_lem}
use tee.Examples.Model.{lattices}
use tee.Examples.Data.{differ, tombstones, edge_tombstones}
use tee.Examples.Store.{filled, loaded, fresh, filled-none, loaded-some, loaded-IsValid}

apply_all-Reordered_example :
    fold_all apply (of_nodes tombstones ∷ of_edges edge_tombstones ∷ []) loaded
    ≡ fold_all apply (of_edges edge_tombstones ∷ of_nodes tombstones ∷ []) loaded
apply_all-Reordered_example = apply_all-Reordered loaded swap loaded-IsValid

get_live_view-merge_node_tombstones_example :
    get_live_view "inc-1" (merge_node_tombstones tombstones loaded).0
    ≡ ok (record {
      nodes = filter (λ n. not (has tombstones.node_ids n.id)) (live_graph fresh loaded).nodes;
      edges =
          filter
            (λ e. not (has tombstones.node_ids e.source) && not (has tombstones.node_ids e.target))
            (live_graph fresh loaded).edges;
    })
get_live_view-merge_node_tombstones_example =
    get_live_view-merge_node_tombstones tombstones loaded (live_graph fresh loaded)
      (get_live_view-some "inc-1" loaded loaded-some)

merge_node_tombstones_lem_example :
    (r : Proto.TombstoneMergeResult) × (merge_node_tombstones tombstones loaded
      ≡ (with_nodes loaded "inc-1" fresh tombstones.node_ids, ok r))
    × ((y : String)
        → contains (extend [] tombstones.node_ids) y ≡ contains [] y || has tombstones.node_ids y)
    × Reports loaded.nodes tombstones.node_ids [] no_tombstones r
merge_node_tombstones_lem_example = merge_node_tombstones_lem tombstones loaded fresh loaded-some

merge_tombstones_twice_example :
    (merge_node_tombstones tombstones (merge_node_tombstones tombstones loaded).0 ≡ (
      (merge_node_tombstones tombstones loaded).0,
      ok (record no_tombstones { already_tombstoned_ids = tombstones.node_ids }),
    ))
    × ((merge_edge_tombstones edge_tombstones (merge_edge_tombstones edge_tombstones loaded).0).0
        ≡ (merge_edge_tombstones edge_tombstones loaded).0)
merge_tombstones_twice_example =
    merge_tombstones_twice tombstones edge_tombstones loaded fresh loaded-some

incidents-LooksSame_example :
    LooksSame "inc-2" loaded (create_incident (some (8, 0)) "inc-1" loaded).0
    × LooksSame "inc-2" loaded (merge_node_tombstones tombstones loaded).0
    × LooksSame "inc-2" loaded (merge_edge_tombstones edge_tombstones loaded).0
incidents-LooksSame_example =
    incidents-LooksSame (some (8, 0)) "inc-1" tombstones edge_tombstones "inc-2" loaded
      (differ "inc-2" "inc-1" refl) (differ "inc-2" "inc-1" refl) (differ "inc-2" "inc-1" refl)

create_incident_lem_example :
    (created : InnerState) × (create_incident (some (7, 5)) "inc-1" filled
      ≡ (created, ok (record { incident_id = "inc-1"; created = true })))
    × (create_incident (some (9, 0)) "inc-1" created
        ≡ (created, ok (record { incident_id = "inc-1"; created = false })))
    × (get_live_view "inc-1" created ≡ get_main_graph filled)
    × (get_incident_context "inc-1" created
        ≡ ok (record {
          incident_id = "inc-1";
          created_at = some (record {
            seconds = (timestamp_of (some (7, 5))).0;
            nanos = (timestamp_of (some (7, 5))).1;
          });
          tombstones = some (record { node_ids = []; edge_entries = [] });
        }))
create_incident_lem_example =
    create_incident_lem (some (7, 5)) (some (9, 0)) "inc-1" filled filled-none

get_live_view-merge_edge_tombstones_example :
    get_live_view "inc-1" (merge_edge_tombstones edge_tombstones loaded).0
    ≡ ok (record (live_graph fresh loaded) {
      edges =
          filter
            (λ e. not (names (taken edge_tombstones.entries) e))
            (live_graph fresh loaded).edges;
    })
get_live_view-merge_edge_tombstones_example =
    get_live_view-merge_edge_tombstones edge_tombstones loaded (live_graph fresh loaded)
      (get_live_view-some "inc-1" loaded loaded-some)

merge_edge_tombstones_lem_example :
    ((merge_edge_tombstones edge_tombstones loaded).0
      ≡ with_edges loaded "inc-1" fresh (taken edge_tombstones.entries))
    × ((k : EdgeKey)
        → contains (extend [] (taken edge_tombstones.entries)) k
          ≡ contains [] k || has (taken edge_tombstones.entries) k)
    × (((f : ConversionError) × (refusal edge_tombstones.entries ≡ some f)
          × ((merge_edge_tombstones edge_tombstones loaded).1
              ≡ err (backend (show_conversion_error f))))
        ⊎ ((r : Proto.TombstoneMergeResult) × (refusal edge_tombstones.entries ≡ none)
            × ((merge_edge_tombstones edge_tombstones loaded).1 ≡ ok r)
            × (reported r ≡ length edge_tombstones.entries)))
merge_edge_tombstones_lem_example =
    merge_edge_tombstones_lem edge_tombstones loaded fresh loaded-some
