-- ===== src/Validation/Spec.antt =====
-- schema/validation.rs: the validators of deltas, and what they ask for.
use tee.Base.{
  pos, ◌≡◌, ◌≢◌, ◌↔◌, refl, String, Bool, true, false, List, [], ◌∷◌, arith, ok, err, All, is_nil,
  is_empty, refuse, ◌>>◌, string_eq,
}
use tee.Base.Int.{int_eq_iff}
use tee.Proto
use tee.Validation.{
  Verdict, ValidationError, each, validate_provenance, validate_node, validate_edge,
  validate_hypothesis_delta,
}

pub record IsValidProvenance (p : Proto.Provenance) : Type 0 where
  pub source : p.source ≢ ""
  pub trigger : p.trigger ≢ ""

pub record IsValidNode (n : Proto.Node) : Type 0 where
  pub id : n.id ≢ ""
  pub type : n.type ≢ pos 0
  pub label : n.label ≢ ""
  pub provenance : n.provenance ≢ []
  pub entries : All IsValidProvenance n.provenance

pub record IsValidEdge (e : Proto.Edge) : Type 0 where
  pub source : e.source ≢ ""
  pub target : e.target ≢ ""
  pub no_loop : e.source ≢ e.target
  pub type : e.type ≢ pos 0
  pub provenance : e.provenance ≢ []
  pub entries : All IsValidProvenance e.provenance

pub is_empty_iff : (s : String) → (is_empty s ≡ true) ↔ (s ≡ "")
is_empty_iff String.[] = (λ h. refl, λ h. refl)
is_empty_iff (String.◌∷◌ c s) = (λ h. cc, λ h. cc)

-- A test that refuses is passed exactly where it does not hold, and then the rest decides.
pub refuse-ok :
    (b : Bool) (e : ValidationError) (rest : Verdict)
    → ((refuse b e >> rest) ≡ ok tt) ↔ ((b ≡ false) × (rest ≡ ok tt))
refuse-ok true e rest = (λ h. cc, λ h. cc)
refuse-ok false e rest = (λ h. (refl, h), λ h. h.1)

pub then-ok : (m rest : Verdict) → ((m >> rest) ≡ ok tt) ↔ ((m ≡ ok tt) × (rest ≡ ok tt))
then-ok (ok tt) rest = (λ h. (refl, h), λ h. h.1)
then-ok (err e) rest = (λ h. cc, λ h. cc)

-- The loop accepts exactly where it accepts every element.
pub each-ok {ℓ} :
    {A : Type ℓ} (check : A → Verdict) (P : A → Type 0)
    → ((a : A) → (check a ≡ ok tt) ↔ P a)
    → (xs : List A) → (each check xs ≡ ok tt) ↔ All P xs
unfolding each
each-ok check P iff [] = (λ h. tt, λ h. refl)
each-ok check P iff (x ∷ xs) = (
  λ h.
      let (a, b) = (then-ok (check x) (each check xs)).0 h in
      ((iff x).0 a, (each-ok check P iff xs).0 b),
  λ h. (then-ok (check x) (each check xs)).1 ((iff x).1 h.0, (each-ok check P iff xs).1 h.1),
)

pub validate_provenance-ok :
    (p : Proto.Provenance) → (validate_provenance p ≡ ok tt) ↔ IsValidProvenance p
unfolding validate_provenance
validate_provenance-ok p = (
  λ h. ground (arith, is_empty_iff p.source, is_empty_iff p.trigger),
  λ h. ground (arith, is_empty_iff p.source, is_empty_iff p.trigger),
)

pub is_nil_iff {ℓ} : {A : Type ℓ} (xs : List A) → (is_nil xs ≡ true) ↔ (xs ≡ [])
is_nil_iff [] = (λ h. refl, λ h. refl)
is_nil_iff (x ∷ xs) = (λ h. cc, λ h. cc)

-- `validate_node` accepts exactly the nodes with an id, a type, a label and provenance entries that
-- each have a source and a trigger.
validate_node-ok : (n : Proto.Node) → (validate_node n ≡ ok tt) ↔ IsValidNode n
unfolding validate_node
validate_node-ok n =
    let entries =
      each-ok validate_provenance IsValidProvenance validate_provenance-ok n.provenance in
    (
      λ h. ground (
        arith,
        is_empty_iff n.id,
        int_eq_iff n.type (pos 0),
        is_empty_iff n.label,
        is_nil_iff n.provenance,
        entries,
      ),
      λ h. ground (
        arith,
        is_empty_iff n.id,
        int_eq_iff n.type (pos 0),
        is_empty_iff n.label,
        is_nil_iff n.provenance,
        entries,
      ),
    )

-- `validate_edge` accepts exactly the edges with two different ends, a type and provenance entries
-- that each have a source and a trigger.
validate_edge-ok : (e : Proto.Edge) → (validate_edge e ≡ ok tt) ↔ IsValidEdge e
unfolding validate_edge
validate_edge-ok e =
    let entries =
      each-ok validate_provenance IsValidProvenance validate_provenance-ok e.provenance in
    (
      λ h. ground (
        arith,
        is_empty_iff e.source,
        is_empty_iff e.target,
        string_eq.beq_iff e.source e.target,
        int_eq_iff e.type (pos 0),
        is_nil_iff e.provenance,
        entries,
      ),
      λ h. ground (
        arith,
        is_empty_iff e.source,
        is_empty_iff e.target,
        string_eq.beq_iff e.source e.target,
        int_eq_iff e.type (pos 0),
        is_nil_iff e.provenance,
        entries,
      ),
    )

-- A delta is accepted exactly where all its nodes and edges are valid.
pub validate_hypothesis_delta-ok :
    (d : Proto.HypothesisDelta)
    → (validate_hypothesis_delta d ≡ ok tt) ↔ (All IsValidNode d.nodes × All IsValidEdge d.edges)
unfolding validate_hypothesis_delta
validate_hypothesis_delta-ok d =
    let nodes = each-ok validate_node IsValidNode validate_node-ok d.nodes in
    let edges = each-ok validate_edge IsValidEdge validate_edge-ok d.edges in
    let both = then-ok (each validate_node d.nodes) (each validate_edge d.edges) in
    (λ h. (nodes.0 (both.0 h).0, edges.0 (both.0 h).1), λ h. both.1 (nodes.1 h.0, edges.1 h.1))
