-- ===== src/Refinement/Convergence.antt =====
-- service.rs: calls of `merge_hypothesis` that arrive in another order.
use mathlib.Core.Option
use tee.Base.{
  inl, inr, ◌≡◌, refl, ap, ◌∙◌, sym, List, [], ◌∷◌, map, String, Option, Result-cases, is_ok,
  if◌then◌else◌,
}
use tee.Base.Fold.{fold_all, Swaps, fold_all_comm}
use tee.Lattices.{Lattices}
use tee.Proto
use tee.Validation
use tee.Domain.Edge.{EdgeKey}
use tee.Store.State.{InnerState}
use tee.Store.Invariant.{IsValid}
use tee.Service.Runtime.{Runtime}
use tee.Service.Server
use tee.Service.Server.{Call, merges_hypothesis}
use tee.Reference.{Graph}
use tee.Reference.Service
use tee.Reference.Service.{checked}
use tee.Refinement.{view}
use tee.Refinement.Outline.{Outline, Reasons, outline, reasons}
use tee.Refinement.Proposals.{
  proposals, proposed_edges, at_id, at_key, outline-merge_hypothesis, reasons-merge_hypothesis,
}
use tee.Refinement.Commute.{Compatible, SameOutline, at_id-proposals, at_key-proposed_edges}
use tee.Refinement.Service.{serve_all-refines}

-- The same steps in another order, where only neighbours in a relation are swapped.
pub data Reordered {Q : Type 0} (C : Q → Q → Type 0) : List Q → List Q → Type 0 where
  same : {qs : List Q} → Reordered C qs qs
  swap : {p q : Q} {qs : List Q} → C p q → Reordered C (p ∷ q ∷ qs) (q ∷ p ∷ qs)
  behind : {q : Q} {ps qs : List Q} → Reordered C ps qs → Reordered C (q ∷ ps) (q ∷ qs)
  after : {ps qs rs : List Q} → Reordered C ps qs → Reordered C qs rs → Reordered C ps rs

fold_all-Reordered :
    {Q S : Type 0} (C : Q → Q → Type 0) (step : Q → S → S)
    → ((p q : Q) → C p q → Swaps step p q)
    → {ps qs : List Q} (s : S) → Reordered C ps qs
    → fold_all step ps s ≡ fold_all step qs s
unfolding fold_all
fold_all-Reordered C step f s same = refl
fold_all-Reordered C step f s (swap {p} {q} {qs} c) = ap (fold_all step qs) (sym (f p q c s))
fold_all-Reordered C step f s (behind {q} r) = fold_all-Reordered C step f (step q s) r
fold_all-Reordered C step f s (after r t) =
    fold_all-Reordered C step f s r ∙ fold_all-Reordered C step f s t

module _ ⦃R : Runtime⦄ where
  -- Deltas that may be sent in either order.
  abbrev pub Independent :
      R.Request Proto.HypothesisDelta → R.Request Proto.HypothesisDelta → Type 0
  Independent q p = Compatible (R.into_inner q) (R.into_inner p)

  abbrev accepted_nodes : R.Request Proto.HypothesisDelta → List (String × Outline)
  accepted_nodes q =
      let d = R.into_inner q in
      if is_ok (Validation.validate_hypothesis_delta d) then proposals d.nodes else []

  abbrev accepted_edges : R.Request Proto.HypothesisDelta → List (EdgeKey × Reasons)
  accepted_edges q =
      let d = R.into_inner q in
      if is_ok (Validation.validate_hypothesis_delta d) then proposed_edges d else []

  -- What a call does at one id, and at one key.
  abbrev node_step : String → R.Request Proto.HypothesisDelta → Option Outline → Option Outline
  node_step id q = fold_all (at_id id) (accepted_nodes q)

  abbrev edge_step : EdgeKey → R.Request Proto.HypothesisDelta → Option Reasons → Option Reasons
  edge_step k q = fold_all (at_key k) (accepted_edges q)

  outline-call :
      (q : R.Request Proto.HypothesisDelta) (g : Graph) (id : String)
      → Option.map outline ((Service.merge_hypothesis q g).0.nodes id)
        ≡ node_step id q (Option.map outline (g.nodes id))
  unfolding Service.merge_hypothesis checked fold_all
  outline-call q g id =
      elim (Result-cases (Validation.validate_hypothesis_delta (R.into_inner q))) [
        | inr (_, e) ↦ rw (e, checked, fold_all)
        | inl (_, e) ↦ rw (e, checked) (outline-merge_hypothesis (R.into_inner q) g id)
      ]

  reasons-call :
      (q : R.Request Proto.HypothesisDelta) (g : Graph) (k : EdgeKey)
      → Option.map reasons ((Service.merge_hypothesis q g).0.edges k)
        ≡ edge_step k q (Option.map reasons (g.edges k))
  unfolding Service.merge_hypothesis checked fold_all
  reasons-call q g k = elim (Result-cases (Validation.validate_hypothesis_delta (R.into_inner q))) [
    | inr (_, e) ↦ rw (e, checked, fold_all)
    | inl (_, e) ↦ rw (e, checked) (reasons-merge_hypothesis (R.into_inner q) g k)
  ]

  node_step-Swaps :
      (id : String) (q p : R.Request Proto.HypothesisDelta)
      → Independent q p
      → Swaps (node_step id) q p
  unfolding fold_all
  node_step-Swaps id q p h x =
      elim (Result-cases (Validation.validate_hypothesis_delta (R.into_inner q))) [
        | inr (_, e) ↦ rw (e, fold_all)
        | inl (_, e) ↦ elim (Result-cases (Validation.validate_hypothesis_delta (R.into_inner p))) [
          | inr (_, f) ↦ rw (e, f, fold_all)
          | inl (_, f) ↦
              rw (e, f)
                (fold_all_comm (at_id id) (proposals (R.into_inner q).nodes)
                  (proposals (R.into_inner p).nodes) x
                  (at_id-proposals id (R.into_inner q) (R.into_inner p) h))
        ]
      ]

  edge_step-Swaps : (k : EdgeKey) (q p : R.Request Proto.HypothesisDelta) → Swaps (edge_step k) q p
  edge_step-Swaps k q p x =
      fold_all_comm (at_key k) (accepted_edges q) (accepted_edges p) x
        (at_key-proposed_edges k (accepted_edges q) (accepted_edges p))

module _ ⦃L : Lattices⦄ ⦃R : Runtime⦄ where
  abbrev pub Deltas : Type 0
  Deltas = List (R.Request Proto.HypothesisDelta)

  -- The calls that send deltas, one after the other.
  abbrev pub send : Deltas → InnerState → InnerState
  send qs = fold_all Server.serve (map merges_hypothesis qs)

  abbrev send_to_graph : Deltas → Graph → Graph
  send_to_graph qs = fold_all Service.serve (map merges_hypothesis qs)

  outline-send :
      (qs : Deltas) (g : Graph) (id : String)
      → Option.map outline ((send_to_graph qs g).nodes id)
        ≡ fold_all (node_step id) qs (Option.map outline (g.nodes id))
  unfolding fold_all Service.serve
  outline-send [] g id = refl
  outline-send (q ∷ qs) g id =
      outline-send qs (Service.merge_hypothesis q g).0 id
      ∙ ap (fold_all (node_step id) qs) (outline-call q g id)

  reasons-send :
      (qs : Deltas) (g : Graph) (k : EdgeKey)
      → Option.map reasons ((send_to_graph qs g).edges k)
        ≡ fold_all (edge_step k) qs (Option.map reasons (g.edges k))
  unfolding fold_all Service.serve
  reasons-send [] g k = refl
  reasons-send (q ∷ qs) g k =
      reasons-send qs (Service.merge_hypothesis q g).0 k
      ∙ ap (fold_all (edge_step k) qs) (reasons-call q g k)

  -- Deltas may reach a valid store in any order in which only those change places that give no id two
  -- types or two labels: the same nodes and edges are stored, with the same types, labels and flags,
  -- and with the same sources and triggers of their provenance; only timestamps may differ. This also
  -- holds where the store refuses nodes for a conflict with what it had, and where calls fail.
  pub send-converges :
      {ps qs : Deltas} (s : InnerState)
      → IsValid s
      → Reordered Independent ps qs
      → SameOutline (view (send ps s)) (view (send qs s))
  send-converges {ps} {qs} s v r = (
    (λ id.
        nodes_of ps id
        ∙ fold_all-Reordered Independent (node_step id) (node_step-Swaps id) _ r
        ∙ sym (nodes_of qs id)),
    (λ k.
        edges_of ps k
        ∙ fold_all-Reordered Independent (edge_step k) (λ q p _. edge_step-Swaps k q p) _ r
        ∙ sym (edges_of qs k)),
  )
    where
      nodes_of :
          (rs : Deltas) (id : String)
          → Option.map outline ((view (send rs s)).nodes id)
            ≡ fold_all (node_step id) rs (Option.map outline ((view s).nodes id))
      nodes_of rs id =
          ap (λ g. Option.map outline (g.nodes id))
            (serve_all-refines (map merges_hypothesis rs) s v)
          ∙ outline-send rs (view s) id

      edges_of :
          (rs : Deltas) (k : EdgeKey)
          → Option.map reasons ((view (send rs s)).edges k)
            ≡ fold_all (edge_step k) rs (Option.map reasons ((view s).edges k))
      edges_of rs k =
          ap (λ g. Option.map reasons (g.edges k))
            (serve_all-refines (map merges_hypothesis rs) s v)
          ∙ reasons-send rs (view s) k
