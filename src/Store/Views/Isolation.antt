-- ===== src/Store/Views/Isolation.antt =====
-- store/memory.rs: what the methods that write to one incident are to the readers of the others.
use tee.Base.{
  filter_all, ℕ, ◌≡◌, ◌≢◌, refl, ◌∙◌, inl, inr, String, true, false, none, some, Option, [], ok,
  Option-cases, Bool-cases, string_key, string_ord, map,
}
use tee.Collections.BTreeSet.{contains}
use tee.Collections.BTreeSet
use tee.Collections.BTreeMap.{get, insert, contains_key}
use tee.Collections.BTreeMap.Laws.{get-insert_ne, get-insert_self}
use tee.Lattices.{Lattices}
use tee.Proto
use tee.Domain.Edge.{edge_ord}
use tee.Store.State.{IncidentState, InnerState}
use tee.Store.Incidents.{create_incident, get_incident_context, timestamp_of, tombstone_set}
use tee.Store.Tombstones.{merge_node_tombstones, merge_edge_tombstones, get_tombstones}
use tee.Store.Tombstones.Laws.{
  merge_node_tombstones-some, merge_edge_tombstones-some, merge_node_tombstones-none,
  merge_edge_tombstones-none,
}
use tee.Store.Views.{
  get_live_view, get_main_graph, node_is_live, edge_is_live, node_message, edge_message,
}
use tee.Store.Views.Live.{get_live_view-some, live_graph}

module _ ⦃L : Lattices⦄ where
  -- Two states look the same from an incident, and have the same graph.
  pub record LooksSame (id : String) (s t : InnerState) : Type 0 where
    live_view : get_live_view id t ≡ get_live_view id s
    pub tombstones : get_tombstones id t ≡ get_tombstones id s
    pub context : get_incident_context id t ≡ get_incident_context id s
    pub main_graph : get_main_graph t ≡ get_main_graph s

  LooksSame-refl : (id : String) (s : InnerState) → LooksSame id s s
  LooksSame-refl id s = record {
    live_view = refl;
    tombstones = refl;
    context = refl;
    main_graph = refl;
  }

  -- Writing one incident cannot be seen from another.
  put_incident-LooksSame :
      (id j : String) (i : IncidentState) (s : InnerState)
      → id ≢ j
      → LooksSame id s (record s { incidents = insert s.incidents j i })
  unfolding get_live_view get_tombstones get_incident_context get_main_graph
  put_incident-LooksSame id j i s h =
      let same = get-insert_ne s.incidents j i id h in
      record { live_view = rw same; tombstones = rw same; context = rw same; main_graph = refl }

  create_incident-LooksSame :
      (now : Option (ℕ × ℕ)) (j id : String) (s : InnerState)
      → id ≢ j
      → LooksSame id s (create_incident now j s).0
  unfolding create_incident
  create_incident-LooksSame now j id s h = elim (Bool-cases (contains_key s.incidents j)) [
    | inl e ↦ rw (e, create_incident) (LooksSame-refl id s)
    | inr e ↦ rw (e, create_incident) (put_incident-LooksSame id j _ s h)
  ]

  merge_node_tombstones-LooksSame :
      (q : Proto.NodeTombstoneRequest) (id : String) (s : InnerState)
      → id ≢ q.incident_id
      → LooksSame id s (merge_node_tombstones q s).0
  merge_node_tombstones-LooksSame q id s h = elim (Option-cases (get s.incidents q.incident_id)) [
    | inl e ↦ rw (merge_node_tombstones-none q s e) (LooksSame-refl id s)
    | inr (i, e) ↦
        rw (merge_node_tombstones-some q s e) (put_incident-LooksSame id q.incident_id _ s h)
  ]

  merge_edge_tombstones-LooksSame :
      (q : Proto.EdgeTombstoneRequest) (id : String) (s : InnerState)
      → id ≢ q.incident_id
      → LooksSame id s (merge_edge_tombstones q s).0
  merge_edge_tombstones-LooksSame q id s h = elim (Option-cases (get s.incidents q.incident_id)) [
    | inl e ↦ rw (merge_edge_tombstones-none q s e) (LooksSame-refl id s)
    | inr (i, e) ↦
        rw (merge_edge_tombstones-some q s e) (put_incident-LooksSame id q.incident_id _ s h)
  ]

  -- Creating an incident and adding tombstones to it, also where this fails, leaves the main graph
  -- alone, and all that the reading methods answer for any other incident.
  pub incidents-LooksSame :
      (now : Option (ℕ × ℕ)) (j : String) (q : Proto.NodeTombstoneRequest)
      (p : Proto.EdgeTombstoneRequest) (id : String) (s : InnerState)
      → id ≢ j
      → id ≢ q.incident_id
      → id ≢ p.incident_id
      → LooksSame id s (create_incident now j s).0
        × LooksSame id s (merge_node_tombstones q s).0
        × LooksSame id s (merge_edge_tombstones p s).0
  incidents-LooksSame now j q p id s a b c = (
    create_incident-LooksSame now j id s a,
    merge_node_tombstones-LooksSame q id s b,
    merge_edge_tombstones-LooksSame p id s c,
  )

  -- Creating an incident that is not there gives it the time of the clock and no tombstones, so its
  -- live view is the main graph. Creating it again, whatever the clock shows then, changes nothing
  -- and says so.
  pub create_incident_lem :
      (now later : Option (ℕ × ℕ)) (id : String) (s : InnerState)
      → get s.incidents id ≡ none
      → (created : InnerState) × (create_incident now id s
          ≡ (created, ok (record { incident_id = id; created = true })))
        × (create_incident later id created
            ≡ (created, ok (record { incident_id = id; created = false })))
        × (get_live_view id created ≡ get_main_graph s)
        × (get_incident_context id created
            ≡ ok (record {
              incident_id = id;
              created_at =
                  some (record { seconds = (timestamp_of now).0; nanos = (timestamp_of now).1 });
              tombstones = some (record { node_ids = []; edge_entries = [] });
            }))
  unfolding create_incident get_incident_context tombstone_set node_is_live edge_is_live
      get_main_graph BTreeSet.get
  create_incident_lem now later id s h = (
    record s { incidents = insert s.incidents id fresh },
    rw (h, create_incident),
    rw (found, create_incident),
    get_live_view-some id _ found ∙ whole,
    context,
  )
    where
      fresh : IncidentState
      fresh = record { created_at = timestamp_of now; node_tombstones = []; edge_tombstones = [] }

      found : get (insert s.incidents id fresh) id ≡ some fresh
      found = get-insert_self s.incidents id fresh

      context :
          get_incident_context id (record s { incidents = insert s.incidents id fresh })
          ≡ ok (record {
            incident_id = id;
            created_at =
                some (record { seconds = (timestamp_of now).0; nanos = (timestamp_of now).1 });
            tombstones = some (record { node_ids = []; edge_entries = [] });
          })
      context = rw (found, get_incident_context, tombstone_set)

      whole : ok (live_graph fresh s) ≡ get_main_graph s
      whole = λ k. ok (record {
        nodes = map node_message (filter_all (λ e. node_is_live fresh e.0) s.nodes (λ e. refl) k);
        edges = map edge_message (filter_all (λ e. edge_is_live fresh e.0) s.edges (λ e. refl) k);
      })
