-- ===== src/Store/Tombstones/Order.antt =====
-- The two methods of store/memory.rs that add tombstones, in sequences of requests.
use tee.Base.{
  ◌≡◌, ◌≢◌, refl, ap, sym, ◌∙◌, inl, inr, String, none, some, List, ◌∷◌, Option-cases, string_ord,
  string_key,
}
use tee.Base.Fold.{fold_all}
use tee.Base.Text.{compare-eq}
use tee.Collections.BTreeSet.{extend}
use tee.Collections.BTreeSet.Canonical.{extend_comm}
use tee.Collections.BTreeMap.{get, insert}
use tee.Collections.BTreeMap.Laws.{
  get-insert_self, get-insert_ne, insert-insert, insert_comm, Key-cases, get-All,
}
use tee.Lattices.{Lattices}
use tee.Proto
use tee.Domain.Edge.{edge_ord, edge_key, cmp-eq}
use tee.Store.State.{InnerState, IncidentState}
use tee.Store.Invariant.{IsValid, IsValidIncident}
use tee.Store.Invariant.Methods.{merge_node_tombstones-IsValid, merge_edge_tombstones-IsValid}
use tee.Store.Tombstones.{merge_node_tombstones, merge_edge_tombstones}
use tee.Store.Tombstones.Edges.{taken}
use tee.Store.Tombstones.Laws.{
  merge_node_tombstones-none, merge_node_tombstones-some, merge_edge_tombstones-none,
  merge_edge_tombstones-some,
}

module _ ⦃L : Lattices⦄ where
  -- An update of one incident, if it is there.
  abbrev pub update : String → (IncidentState → IncidentState) → InnerState → InnerState
  update id f s = elim (get s.incidents id) [
    | none ↦ s
    | some i ↦ record s { incidents = insert s.incidents id (f i) }
  ]

  update-none :
      (id : String) (f : IncidentState → IncidentState) (s : InnerState)
      → get s.incidents id ≡ none
      → update id f s ≡ s
  update-none id f s h = rw (h, update)

  update-some :
      (id : String) (f : IncidentState → IncidentState) (s : InnerState) {i : IncidentState}
      → get s.incidents id ≡ some i
      → update id f s ≡ record s { incidents = insert s.incidents id (f i) }
  update-some id f s h = rw (h, update)

  -- Updates of two incidents commute.
  update_comm_ne :
      (j k : String) (f g : IncidentState → IncidentState) (s : InnerState)
      → j ≢ k
      → update j f (update k g s) ≡ update k g (update j f s)
  update_comm_ne j k f g s n = elim (Option-cases (get s.incidents j)) [
    | inl a ↦ elim (Option-cases (get s.incidents k)) [
      | inl b ↦ rw (update-none j f s a, update-none k g s b) (update-none j f s a)
      | inr (y, b) ↦
          rw (update-none j f s a, update-some k g s b)
            (update-none j f _ (get-insert_ne s.incidents k (g y) j n ∙ a))
    ]
    | inr (x, a) ↦ elim (Option-cases (get s.incidents k)) [
      | inl b ↦
          rw (update-some j f s a, update-none k g s b)
            (update-some j f s a
              ∙ sym (update-none k g _ (get-insert_ne s.incidents j (f x) k (λ e. n (sym e)) ∙ b)))
      | inr (y, b) ↦
          rw (update-some j f s a, update-some k g s b)
            (update-some j f _ (get-insert_ne s.incidents k (g y) j n ∙ a)
              ∙ ap (λ m. record s { incidents = m }) (insert_comm s.incidents k j (g y) (f x) n)
              ∙ sym (update-some k g _ (get-insert_ne s.incidents j (f x) k (λ e. n (sym e)) ∙ b)))
    ]
  ]

  -- Two updates of one incident that commute on it.
  update_comm_eq :
      (k : String) (f g : IncidentState → IncidentState) (s : InnerState)
      → ((i : IncidentState) → get s.incidents k ≡ some i → f (g i) ≡ g (f i))
      → update k f (update k g s) ≡ update k g (update k f s)
  update_comm_eq k f g s c = elim (Option-cases (get s.incidents k)) [
    | inl a ↦ rw (update-none k f s a, update-none k g s a) (update-none k f s a)
    | inr (i, a) ↦
        rw (update-some k f s a, update-some k g s a)
          (update-some k f _ (get-insert_self s.incidents k (g i))
            ∙ ap (λ m. record s { incidents = m })
                (insert-insert s.incidents k _ _
                  ∙ ap (λ v. insert s.incidents k v) (c i a)
                  ∙ sym (insert-insert s.incidents k _ _))
            ∙ sym (update-some k g _ (get-insert_self s.incidents k (f i))))
  ]

  -- A request of either kind, its incident and what it makes of this.
  pub data Request : Type 0 where
    of_nodes : Proto.NodeTombstoneRequest → Request
    of_edges : Proto.EdgeTombstoneRequest → Request

  abbrev pub incident_of : Request → String
  incident_of (of_nodes q) = q.incident_id
  incident_of (of_edges q) = q.incident_id

  abbrev pub extended : Request → IncidentState → IncidentState
  extended (of_nodes q) i = record i { node_tombstones = extend i.node_tombstones q.node_ids }
  extended (of_edges q) i = record i {
    edge_tombstones = extend i.edge_tombstones (taken q.entries);
  }

  -- The state that a request leaves behind.
  abbrev pub apply : Request → InnerState → InnerState
  apply (of_nodes q) s = (merge_node_tombstones q s).0
  apply (of_edges q) s = (merge_edge_tombstones q s).0

  apply-update : (q : Request) (s : InnerState) → apply q s ≡ update (incident_of q) (extended q) s
  apply-update (of_nodes q) s = elim (Option-cases (get s.incidents q.incident_id)) [
    | inl h ↦ ap (λ o. o.0) (merge_node_tombstones-none q s h) ∙ sym (update-none _ _ s h)
    | inr (i, h) ↦ ap (λ o. o.0) (merge_node_tombstones-some q s h) ∙ sym (update-some _ _ s h)
  ]
  apply-update (of_edges q) s = elim (Option-cases (get s.incidents q.incident_id)) [
    | inl h ↦ ap (λ o. o.0) (merge_edge_tombstones-none q s h) ∙ sym (update-none _ _ s h)
    | inr (i, h) ↦ ap (λ o. o.0) (merge_edge_tombstones-some q s h) ∙ sym (update-some _ _ s h)
  ]

  extended_comm :
      (p q : Request) (e : String × IncidentState)
      → IsValidIncident e
      → extended p (extended q e.1) ≡ extended q (extended p e.1)
  unfolding edge_ord
  extended_comm (of_nodes p) (of_nodes q) (id, i) v = λ k. record i {
    node_tombstones =
        extend_comm compare-eq i.node_tombstones q.node_ids p.node_ids v.nodes_sorted k;
  }
  extended_comm (of_nodes p) (of_edges q) (id, i) v = refl
  extended_comm (of_edges p) (of_nodes q) (id, i) v = refl
  extended_comm (of_edges p) (of_edges q) (id, i) v = λ k. record i {
    edge_tombstones =
        extend_comm ⦃o = edge_ord⦄ cmp-eq i.edge_tombstones (taken q.entries) (taken p.entries)
          v.edges_sorted k;
  }

  -- Two tombstone requests, of nodes or of edges, of one incident or of two, leave the same state
  -- behind whichever of them comes first, also where one fails. The state before is valid.
  apply_comm :
      (p q : Request) (s : InnerState) → IsValid s → apply p (apply q s) ≡ apply q (apply p s)
  apply_comm p q s v =
      ap (apply p) (apply-update q s)
      ∙ apply-update p _
      ∙ updates
      ∙ sym (apply-update q _)
      ∙ sym (ap (apply q) (apply-update p s))
    where
      updates :
          update (incident_of p) (extended p) (update (incident_of q) (extended q) s)
          ≡ update (incident_of q) (extended q) (update (incident_of p) (extended p) s)
      updates = elim (Key-cases (incident_of p) (incident_of q)) [
        | inl same ↦ rw same (
            update_comm_eq (incident_of q) (extended p) (extended q) s (λ i h.
              extended_comm p q (incident_of q, i)
                (get-All IsValidIncident s.incidents (incident_of q) i v.incidents_valid h)))
        | inr other ↦
            update_comm_ne (incident_of p) (incident_of q) (extended p) (extended q) s other
      ]

  apply-IsValid : (q : Request) (s : InnerState) → IsValid s → IsValid (apply q s)
  apply-IsValid (of_nodes q) s v = merge_node_tombstones-IsValid q s v
  apply-IsValid (of_edges q) s v = merge_edge_tombstones-IsValid q s v

  -- The same requests in another order: any number of swaps of neighbours.
  pub data Reordered : List Request → List Request → Type 0 where
    same : {qs : List Request} → Reordered qs qs
    swap : {p q : Request} {qs : List Request} → Reordered (p ∷ q ∷ qs) (q ∷ p ∷ qs)
    behind : {q : Request} {ps qs : List Request} → Reordered ps qs → Reordered (q ∷ ps) (q ∷ qs)
    after : {ps qs rs : List Request} → Reordered ps qs → Reordered qs rs → Reordered ps rs

  -- However the same tombstone requests are ordered, they leave the same state behind, whether they
  -- name nodes or edges, of one incident or of several, also where some of them fail. The state
  -- before is valid.
  pub apply_all-Reordered :
      {ps qs : List Request} (s : InnerState)
      → Reordered ps qs
      → IsValid s
      → fold_all apply ps s ≡ fold_all apply qs s
  unfolding fold_all
  apply_all-Reordered s same v = refl
  apply_all-Reordered s (swap {p} {q} {qs}) v = ap (fold_all apply qs) (apply_comm q p s v)
  apply_all-Reordered s (behind {q} r) v = apply_all-Reordered (apply q s) r (apply-IsValid q s v)
  apply_all-Reordered s (after r t) v = apply_all-Reordered s r v ∙ apply_all-Reordered s t v
