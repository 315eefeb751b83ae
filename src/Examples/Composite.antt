-- ===== src/Examples/Composite.antt =====
-- The theorems about whole maps and about the clock, at the example stores.
use tee.Base.{◌≡◌, String, some, [], ◌∷◌, inl, inr, refl, ok, pos, arith, string_key}
use tee.Collections.BTreeMap.{get}
use tee.Domain.Edge.{EdgeKey, edge_key}
use tee.Domain.Graph.{node_merge, edge_merge}
use tee.Store.Hypothesis.{merge_hypothesis}
use tee.Store.Incidents.{create_incident, get_incident_context}
use tee.Store.Snapshot.{as_delta, main_graph}
use tee.Store.Clock.{create_incident_time}
use tee.Store.Interface.{in_memory_store}
use tee.Store.Interface.Delivery.{
  deliver, all_arrived, first_time, once_more, in_memory_store-deliver,
}
use tee.Store.Composite.{settle, merge_hypothesis-composite}
use tee.Examples.Model.{lattices}
use tee.Examples.Data.{sample, mixed}
use tee.Examples.Store.{filled, filled-none, loaded, loaded-IsValid, other, other-IsValid}

create_incident_time_example :
    get_incident_context "inc-1" (create_incident (some (1700000000, 5)) "inc-1" filled).0
    ≡ ok (record {
      incident_id = "inc-1";
      created_at = some (record { seconds = pos 1700000000; nanos = pos 5 });
      tombstones = some (record { node_ids = []; edge_entries = [] });
    })
create_incident_time_example =
    create_incident_time 1700000000 5 "inc-1" filled (omega arith) (omega arith) filled-none

merge_hypothesis-composite_example :
    ((id : String)
      → get (merge_hypothesis (as_delta (main_graph other)) loaded).0.nodes id
        ≡ settle
            (get loaded.nodes id)
            (get (lattices.map_reveal (lattices.map_merge loaded.nodes other.nodes).0) id))
    × ((k : EdgeKey)
        → get (merge_hypothesis (as_delta (main_graph other)) loaded).0.edges k
          ≡ get (lattices.map_reveal (lattices.map_merge loaded.edges other.edges).0) k)
merge_hypothesis-composite_example =
    merge_hypothesis-composite loaded other loaded-IsValid other-IsValid

in_memory_store-deliver_example :
    deliver in_memory_store (sample ∷ mixed ∷ sample ∷ []) loaded
    ≡ deliver in_memory_store (sample ∷ mixed ∷ []) loaded
in_memory_store-deliver_example =
    in_memory_store-deliver loaded
      (first_time (first_time (once_more (inr (inl refl)) all_arrived)))
