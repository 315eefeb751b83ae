-- ===== src/Validation/Requests.antt =====
-- schema/validation.rs: the validators of the requests of tombstones, and what they ask for.
use tee.Base.{
  pos, ◌≡◌, ◌≢◌, ◌↔◌, refl, Option, none, some, [], arith, ok, All, is_nil, is_empty, ◌>>◌,
  string_eq,
}
use tee.Base.Int.{int_eq_iff}
use tee.Proto
use tee.Validation.{
  each, validate_node_tombstone_request, validate_entry, validate_edge_tombstone_request,
  validate_optional, empty_tombstone_set, empty_incident_id,
}
use tee.Validation.Spec.{
  IsValidProvenance, validate_provenance-ok, is_empty_iff, is_nil_iff, refuse-ok, then-ok, each-ok,
}

pub record IsValidEntry (e : Proto.EdgeTombstoneEntry) : Type 0 where
  pub source : e.source ≢ ""
  pub target : e.target ≢ ""
  pub type : e.type ≢ pos 0

abbrev pub HasProvenance : Option Proto.Provenance → Type 0
HasProvenance p = (q : Proto.Provenance) × (p ≡ some q) × IsValidProvenance q

-- A node tombstone request names an incident and at least one node and comes with valid provenance.
abbrev pub IsValidNodeTombstones : Proto.NodeTombstoneRequest → Type 0
IsValidNodeTombstones r = (r.incident_id ≢ "") × (r.node_ids ≢ []) × HasProvenance r.provenance

-- An edge tombstone request names an incident and at least one entry, comes with valid provenance,
-- and every entry has two ends and a type. The ends may be equal.
abbrev pub IsValidEdgeTombstones : Proto.EdgeTombstoneRequest → Type 0
IsValidEdgeTombstones r =
    (r.incident_id ≢ "")
    × (r.entries ≢ [])
    × HasProvenance r.provenance
    × All IsValidEntry r.entries

validate_entry-ok : (e : Proto.EdgeTombstoneEntry) → (validate_entry e ≡ ok tt) ↔ IsValidEntry e
unfolding validate_entry
validate_entry-ok e = (
  λ h. ground (arith, is_empty_iff e.source, is_empty_iff e.target, int_eq_iff e.type (pos 0)),
  λ h. ground (arith, is_empty_iff e.source, is_empty_iff e.target, int_eq_iff e.type (pos 0)),
)

optional-ok : (p : Option Proto.Provenance) → (validate_optional p ≡ ok tt) ↔ HasProvenance p
optional-ok none = (λ h. cc, λ h. cc h.1)
optional-ok (some q) = (
  λ h. (q, refl, (validate_provenance-ok q).0 h),
  λ h. (validate_provenance-ok q).1 (ground (arith, h.2)),
)

-- A node tombstone request is accepted exactly where it names an incident and at least one node
-- and comes with valid provenance.
pub validate_node_tombstone_request-ok :
    (r : Proto.NodeTombstoneRequest)
    → (validate_node_tombstone_request r ≡ ok tt) ↔ IsValidNodeTombstones r
unfolding validate_node_tombstone_request
validate_node_tombstone_request-ok r =
    let last = optional-ok r.provenance in
    let middle =
      refuse-ok (is_nil r.node_ids) empty_tombstone_set (validate_optional r.provenance) in
    let first = refuse-ok (is_empty r.incident_id) empty_incident_id _ in
    (
      λ h.
          let (a, b) = first.0 h in
          let (c, d) = middle.0 b in
          (
            λ e. ground (arith, is_empty_iff r.incident_id),
            λ e. ground (arith, is_nil_iff r.node_ids),
            last.0 d,
          ),
      λ (a, b, c). first.1 (
        ground (arith, is_empty_iff r.incident_id),
        middle.1 (ground (arith, is_nil_iff r.node_ids), last.1 c),
      ),
    )

-- An edge tombstone request is accepted exactly where it names an incident and at least one entry,
-- comes with valid provenance, and every entry has two ends and a type. Equal ends are accepted.
pub validate_edge_tombstone_request-ok :
    (r : Proto.EdgeTombstoneRequest)
    → (validate_edge_tombstone_request r ≡ ok tt) ↔ IsValidEdgeTombstones r
unfolding validate_edge_tombstone_request
validate_edge_tombstone_request-ok r =
    let entries = each-ok validate_entry IsValidEntry validate_entry-ok r.entries in
    let last = then-ok (validate_optional r.provenance) (each validate_entry r.entries) in
    let proof = optional-ok r.provenance in
    let middle =
      refuse-ok (is_nil r.entries) empty_tombstone_set
        (validate_optional r.provenance >> each validate_entry r.entries) in
    let first = refuse-ok (is_empty r.incident_id) empty_incident_id _ in
    (
      λ h.
          let (a, b) = first.0 h in
          let (c, d) = middle.0 b in
          (
            λ e. ground (arith, is_empty_iff r.incident_id),
            λ e. ground (arith, is_nil_iff r.entries),
            proof.0 (last.0 d).0,
            entries.0 (last.0 d).1,
          ),
      λ (a, b, c, d). first.1 (
        ground (arith, is_empty_iff r.incident_id),
        middle.1 (ground (arith, is_nil_iff r.entries), last.1 (proof.1 c, entries.1 d)),
      ),
    )
