-- ===== src/Refinement/Commute.antt =====
-- Two deltas that are merged into the reference graph, in either order.
use mathlib.Core.Option
use tee.Base.{
  ◌≡◌, ap, sym, inl, inr, String, List, [], ◌∷◌, arith, ok, All, Result-cases, Bool-cases,
  string_key,
}
use tee.Collections.BTreeSet.{is_eq}
use tee.Proto
use tee.Domain.Types.{NodeType}
use tee.Domain.Edge.{EdgeKey, edge_key}
use tee.Convert.{node_type_try_from}
use tee.Reference.{Graph}
use tee.Reference.Hypothesis.{entry_of}
use tee.Refinement.Outline.{Outline, Reasons, outline, reasons, put_comm, put_reasons_comm}
use tee.Base.Fold.{Swaps}
use tee.Refinement.Proposals.{proposals, at_id, at_key}

-- Two deltas do not contradict each other.
abbrev pub Compatible : Proto.HypothesisDelta → Proto.HypothesisDelta → Type 0
Compatible d c =
    All (λ n. All (λ m. n.id ≡ m.id → (n.type ≡ m.type) × (n.label ≡ m.label)) c.nodes) d.nodes

All-proposals :
    (P : Proto.Node → Type 0) (Q : String × Outline → Type 0)
    → ((n : Proto.Node) (t : NodeType)
        → node_type_try_from n.type ≡ ok t
        → P n
        → Q (n.id, outline (entry_of n t)))
    → (ns : List Proto.Node) → All P ns
    → All Q (proposals ns)
All-proposals P Q f [] h = tt
All-proposals P Q f (n ∷ ns) h = elim (Result-cases (node_type_try_from n.type)) [
  | inl (t, e) ↦ rw (e, proposals) (f n t e h.0, All-proposals P Q f ns h.1)
  | inr (_, e) ↦ rw (e, proposals) tt
]

at_id-Swaps :
    (id : String) (n m : Proto.Node) (t u : NodeType)
    → node_type_try_from n.type ≡ ok t
    → node_type_try_from m.type ≡ ok u
    → (n.id ≡ m.id → (n.type ≡ m.type) × (n.label ≡ m.label))
    → Swaps (at_id id) (n.id, outline (entry_of n t)) (m.id, outline (entry_of m u))
at_id-Swaps id n m t u hn hm h x = elim (Bool-cases (is_eq (string_key.cmp id n.id))) [
  | inr a ↦ rw a
  | inl a ↦ elim (Bool-cases (is_eq (string_key.cmp id m.id))) [
    | inr b ↦ rw (a, b)
    | inl b ↦
        let here : n.id ≡ m.id =
          ground (arith, string_key.eq_of_cmp id n.id, string_key.eq_of_cmp id m.id) in
        let type : t ≡ u = ground (arith, ap node_type_try_from (h here).0) in
        rw (a, b)
          (put_comm x (outline (entry_of m u)) (outline (entry_of n t))
            (record { node_type = sym type; label = sym (h here).1 }))
  ]
]

at_key-Swaps : (k : EdgeKey) (y z : EdgeKey × Reasons) → Swaps (at_key k) y z
at_key-Swaps k (i, a) (j, b) x = elim (Bool-cases (is_eq (edge_key.cmp k i))) [
  | inr p ↦ rw p
  | inl p ↦ elim (Bool-cases (is_eq (edge_key.cmp k j))) [
    | inr q ↦ rw (p, q)
    | inl q ↦ rw (p, q) (put_reasons_comm x b a)
  ]
]

All_all {ℓ κ} : {A : Type ℓ} {P : A → Type κ} → ((x : A) → P x) → (xs : List A) → All P xs
All_all f [] = tt
All_all f (x ∷ xs) = (f x, All_all f xs)

-- Two graphs that differ in the times of events at most.
abbrev pub SameOutline : Graph → Graph → Type 0
SameOutline g h =
    ((id : String) → Option.map outline (g.nodes id) ≡ Option.map outline (h.nodes id))
    × ((k : EdgeKey) → Option.map reasons (g.edges k) ≡ Option.map reasons (h.edges k))

-- The proposals of two deltas swap in pairs, and those of any edges.
pub at_id-proposals :
    (id : String) (d c : Proto.HypothesisDelta)
    → Compatible d c
    → All (λ y. All (Swaps (at_id id) y) (proposals c.nodes)) (proposals d.nodes)
at_id-proposals id d c h =
    All-proposals (λ n. All (λ m. n.id ≡ m.id → (n.type ≡ m.type) × (n.label ≡ m.label)) c.nodes)
      (λ y. All (Swaps (at_id id) y) (proposals c.nodes))
      (λ n t hn a.
        All-proposals (λ m. n.id ≡ m.id → (n.type ≡ m.type) × (n.label ≡ m.label))
          (Swaps (at_id id) (n.id, outline (entry_of n t)))
          (λ m u hm b. at_id-Swaps id n m t u hn hm b) c.nodes a)
      d.nodes h

pub at_key-proposed_edges :
    (k : EdgeKey) (ys zs : List (EdgeKey × Reasons)) → All (λ y. All (Swaps (at_key k) y) zs) ys
at_key-proposed_edges k ys zs = All_all (λ y. All_all (at_key-Swaps k y) zs) ys
