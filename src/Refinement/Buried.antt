-- ===== src/Refinement/Buried.antt =====
-- The methods that return tombstones, against the incidents of the reference graph.

use tee.Store.Incidents.{tombstone_set, entry_of_key, get_incident_context}
use tee.Store.Tombstones.{get_tombstones}
use tee.Base.{
  pos, ◌≡◌, refl, ap, sym, ◌∙◌, String, Bool, false, ◌||◌, some, List, [], ◌∷◌, map, ok, err,
  string_eq, string_ord, string_key,
}
use tee.Collections.BTreeSet.{is_eq}
use tee.Collections.BTreeSet.Laws.{has}
use tee.Collections.BTreeSet.Elements.{contains-has}
use tee.Collections.BTreeMap.Laws.{get-All}
use tee.Lattices.{Lattices}
use tee.Proto
use tee.Domain.Provenance.{provenance_ord}
use tee.Domain.Edge.{EdgeKey, new_key, edge_ord, edge_key}
use tee.Convert.{edge_type_try_from}
use tee.Convert.Facts.{edge_type_round_trip}
use tee.Store.State.{InnerState}
use tee.Store.Invariant.{IsValid, IsValidIncident}
use tee.Reference.{Incident}
use tee.Refinement.{view}
use tee.Refinement.Reads.{view-incident}

module _ ⦃L : Lattices⦄ where
  -- A tombstone of an edge in an answer, by the key that it is for.
  abbrev pub entry_names : EdgeKey → Proto.EdgeTombstoneEntry → Bool
  entry_names k e = elim (edge_type_try_from e.type) [
    | err _ ↦ false
    | ok t ↦ is_eq (edge_ord.cmp k (new_key e.source e.target t))
  ]

  abbrev pub named : List Proto.EdgeTombstoneEntry → EdgeKey → Bool
  named [] k = false
  named (e ∷ es) k = entry_names k e || named es k

  entry_names-key : (k j : EdgeKey) → entry_names k (entry_of_key j) ≡ is_eq (edge_ord.cmp k j)
  unfolding entry_of_key new_key
  entry_names-key k j = rw (entry_names, (edge_type_round_trip j.edge_type (pos 0)).0)

  named-entries : (keys : List EdgeKey) (k : EdgeKey) → named (map entry_of_key keys) k ≡ has keys k
  named-entries [] k = refl
  named-entries (j ∷ keys) k = λ i. entry_names-key k j i || named-entries keys k i

  -- Of a valid store in which an incident is seen, the tombstones are answered, and they are those
  -- that the incident is seen to have; the context of the incident is answered with the same
  -- tombstones and the time that is seen.
  pub get_tombstones-refines :
      (id : String) (s : InnerState) (incident : Incident)
      → IsValid s
      → (view s).incidents id ≡ some incident
      → (r : Proto.TombstoneSet) × (get_tombstones id s ≡ ok r)
        × ((y : String) → has r.node_ids y ≡ incident.dead_nodes y)
        × ((k : EdgeKey) → named r.edge_entries k ≡ incident.dead_edges k)
        × (get_incident_context id s
            ≡ ok (record {
              incident_id = id;
              created_at =
                  some (record { seconds = incident.created_at.0; nanos = incident.created_at.1 });
              tombstones = some r;
            }))
  unfolding get_tombstones get_incident_context tombstone_set
  get_tombstones-refines id s incident v h =
      let (i, e, same) = view-incident id s h in
      let valid = get-All IsValidIncident s.incidents id i v.incidents_valid e in
      (
        tombstone_set i,
        rw (e, get_tombstones),
        (λ y.
            sym (contains-has i.node_tombstones y valid.nodes_sorted)
            ∙ ap (λ x. x.dead_nodes y) same),
        (λ k.
            named-entries i.edge_tombstones k
            ∙ sym (contains-has i.edge_tombstones k valid.edges_sorted)
            ∙ ap (λ x. x.dead_edges k) same),
        rw (e, get_incident_context)
            (ap
              (λ x. ok (record {
                incident_id = id;
                created_at = some (record { seconds = x.created_at.0; nanos = x.created_at.1 });
                tombstones = some (tombstone_set i);
              }))
              same),
      )
