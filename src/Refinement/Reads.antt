-- ===== src/Refinement/Reads.antt =====
-- The methods that read: what their answers say, read back by keys, against the reference
-- graph.
use mathlib.Core.Option
use mathlib.Core.Option.{some_inj}
use tee.Store.Snapshot.{main_graph}
use tee.Base.{
  filter_all, subst, pos, ◌≡◌, refl, ap, sym, ◌∙◌, inl, inr, String, Bool, true, false, not, ◌&&◌,
  ◌||◌, Option, none, some, List, map, arith, ok, err, All-imp, Option-cases, string_eq, string_ord,
  string_key, if◌then◌else◌,
}
use tee.Collections.BTreeSet.{BTreeSet, contains, is_eq, IsSorted}
use tee.Collections.BTreeMap.{get}
use tee.Lattices.{Lattices}
use tee.Proto
use tee.Domain.Provenance.{Provenance, provenance_ord}
use tee.Domain.Node.{NodeLattice}
use tee.Domain.Edge.{EdgeKey, EdgeLattice, new_key, edge_ord, edge_key}
use tee.Convert.{
  i32_from_node_type, node_type_try_from, edge_type_try_from, domain_node_to_proto,
  domain_edge_to_proto, provenance_to_proto,
}
use tee.Convert.Facts.{node_type_round_trip, edge_type_round_trip, collected}
use tee.Store.State.{InnerState, IncidentState}
use tee.Store.Views.{
  node_is_live, edge_is_live, node_message, edge_message, get_live_view, get_main_graph,
}
use tee.Store.Views.Live.{live_graph, get_live_view-some}
use tee.Store.Invariant.{IsValid, IsValidNode, IsValidEdge}
use tee.Reference.{Entry, Events, Graph, Incident, events_of}
use tee.Reference.Hypothesis.{entry_of}
use tee.Refinement.{view, view_node, view_incident, events}
use tee.Refinement.Lookup.{lookup, lookup-messages}
use tee.Refinement.Proven.{events-from_iter}

-- A message of a node or an edge, read as an entry of the reference graph.
abbrev pub read_node : Proto.Node → Option Entry
read_node n = elim (node_type_try_from n.type) [ err _ ↦ none | ok t ↦ some (entry_of n t) ]

abbrev pub node_belongs : String → Proto.Node → Bool
node_belongs id n = string_eq.beq id n.id

abbrev pub edge_belongs : EdgeKey → Proto.Edge → Bool
edge_belongs k e = elim (edge_type_try_from e.type) [
  | err _ ↦ false
  | ok t ↦ is_eq (edge_key.cmp k (new_key e.source e.target t))
]

abbrev pub read_edge : Proto.Edge → Option Events
read_edge e = some (events_of e.provenance)

-- What a list of messages says of an id, and of a key.
abbrev pub read_nodes : List Proto.Node → String → Option Entry
read_nodes = lookup node_belongs read_node

abbrev pub read_edges : List Proto.Edge → EdgeKey → Option Events
read_edges = lookup edge_belongs read_edge

events-messages :
    (ps : BTreeSet Provenance) → IsSorted ps → events_of (map provenance_to_proto ps) ≡ events ps
events-messages ps h =
    sym (events-from_iter (map provenance_to_proto ps)) ∙ ap events (collected ps h)

module _ ⦃L : Lattices⦄ where
  read_node-message :
      (e : String × NodeLattice) → IsValidNode e → read_node (node_message e) ≡ view_node (some e.1)
  unfolding domain_node_to_proto
  read_node-message (id, n) v =
      let (t, ht) = v.type in
      let (l, hl, _) = v.label in
      let fields : node_message (id, n) ≡ record {
        id = id;
        type = i32_from_node_type t;
        label = l;
        hypothetical = L.min_reveal n.hypothetical;
        provenance = map provenance_to_proto (L.set_reveal n.provenance);
      } =
        rw (ht, hl) in
      ap read_node fields
      ∙ rw (
        ht,
        hl,
        read_node,
        (node_type_round_trip t (pos 0)).0,
        events-messages (L.set_reveal n.provenance) v.proven.sorted,
      )

  read_edge-message :
      (e : EdgeKey × EdgeLattice)
      → IsValidEdge e
      → read_edge (edge_message e) ≡ some (events (L.set_reveal e.1.provenance))
  unfolding domain_edge_to_proto
  read_edge-message (k, l) v =
      ap (λ x. some x) (events-messages (L.set_reveal l.provenance) v.proven.sorted)

  node_belongs-message :
      (id : String) (e : String × NodeLattice)
      → node_belongs id (node_message e) ≡ is_eq (string_key.cmp id e.0)
  unfolding domain_node_to_proto string_key
  node_belongs-message id e = ground arith

  edge_belongs-message :
      (k : EdgeKey) (e : EdgeKey × EdgeLattice)
      → edge_belongs k (edge_message e) ≡ is_eq (edge_key.cmp k e.0)
  unfolding domain_edge_to_proto new_key
  edge_belongs-message k (j, l) = rw (edge_belongs, (edge_type_round_trip j.edge_type (pos 0)).0)

  -- What a graph in an answer says, compared with a graph of which a part is dead.
  pub record Shows (answer : Proto.CausalGraph) (g : Graph) (dead_node : String → Bool)
      (dead_edge : EdgeKey → Bool) : Type 0 where
    pub nodes :
        (id : String) → read_nodes answer.nodes id ≡ (if dead_node id then none else g.nodes id)
    pub edges :
        (k : EdgeKey) → read_edges answer.edges k ≡ (if dead_edge k then none else g.edges k)

  if_not {ℓ} : {A : Type ℓ} (b : Bool) (x y : A) → (if not b then x else y) ≡ (if b then y else x)
  if_not true x y = refl
  if_not false x y = refl

  if_live {ℓ} :
      {A : Type ℓ} (a b c : Bool) (x y : A)
      → (if not a && not b && not c then x else y) ≡ (if a || b || c then y else x)
  if_live true b c x y = refl
  if_live false true c x y = refl
  if_live false false true x y = refl
  if_live false false false x y = refl

  live_graph-Shows :
      (i : IncidentState) (s : InnerState)
      → IsValid s
      → Shows (live_graph i s) (view s) (contains i.node_tombstones) (λ k.
        contains i.edge_tombstones k
        || contains i.node_tombstones k.source
        || contains i.node_tombstones k.target)
  unfolding node_is_live edge_is_live
  live_graph-Shows i s v = record {
    nodes = λ id.
        lookup-messages node_message node_belongs read_node view_node refl node_belongs-message
          (node_is_live i) s.nodes id v.nodes_sorted
          (All-imp read_node-message s.nodes v.nodes_valid)
        ∙ if_not (contains i.node_tombstones id) _ _;
    edges = λ k.
        lookup-messages edge_message edge_belongs read_edge
          (Option.map (λ l. events (L.set_reveal l.provenance))) refl edge_belongs-message
          (edge_is_live i) s.edges k v.edges_sorted
          (All-imp read_edge-message s.edges v.edges_valid)
        ∙ if_live (contains i.edge_tombstones k) (contains i.node_tombstones k.source)
            (contains i.node_tombstones k.target) _ _;
  }

  pub view-incident :
      (id : String) (s : InnerState) {incident : Incident}
      → (view s).incidents id ≡ some incident
      → (i : IncidentState) × (get s.incidents id ≡ some i) × (view_incident i ≡ incident)
  view-incident id s h = elim (Option-cases (get s.incidents id)) [
    | inl e ↦ absurd (ground arith)
    | inr (i, e) ↦ (i, e, some_inj.0 (rw e at h))
  ]

  -- Of a valid store in which an incident is seen, the live view of the incident is answered, and it
  -- says of each id what the graph seen in the store says of it, unless the id has a tombstone, and
  -- of each key of an edge what that graph says of it, unless the edge or one of its ends has one.
  pub get_live_view-refines :
      (id : String) (s : InnerState) (incident : Incident)
      → IsValid s
      → (view s).incidents id ≡ some incident
      → (g : Proto.CausalGraph) × (get_live_view id s ≡ ok g)
        × Shows g (view s) incident.dead_nodes (λ k.
          incident.dead_edges k || incident.dead_nodes k.source || incident.dead_nodes k.target)
  get_live_view-refines id s incident v h =
      let (i, e, same) = view-incident id s h in
      (
        live_graph i s,
        get_live_view-some id s e,
        subst
            (λ x.
              Shows (live_graph i s) (view s) x.dead_nodes
                (λ k. x.dead_edges k || x.dead_nodes k.source || x.dead_nodes k.target))
            same (live_graph-Shows i s v),
      )

  -- A valid store answers with its main graph, which says of each id and of each key of an edge what
  -- the graph seen in the store says of it.
  pub get_main_graph-refines :
      (s : InnerState)
      → IsValid s
      → (g : Proto.CausalGraph) × (get_main_graph s ≡ ok g)
        × Shows g (view s) (λ id. false) (λ k. false)
  unfolding get_main_graph
  get_main_graph-refines s v = (
    main_graph s,
    refl,
    record {
      nodes = λ id.
          ap (λ m. read_nodes (map node_message m) id)
            (sym (filter_all (λ e. true) s.nodes (λ e. refl)))
          ∙ lookup-messages node_message node_belongs read_node view_node refl node_belongs-message
              (λ id. true) s.nodes id v.nodes_sorted
              (All-imp read_node-message s.nodes v.nodes_valid);
      edges = λ k.
          ap (λ m. read_edges (map edge_message m) k)
            (sym (filter_all (λ e. true) s.edges (λ e. refl)))
          ∙ lookup-messages edge_message edge_belongs read_edge
              (Option.map (λ l. events (L.set_reveal l.provenance))) refl edge_belongs-message
              (λ k. true) s.edges k v.edges_sorted
              (All-imp read_edge-message s.edges v.edges_valid);
    },
  )
