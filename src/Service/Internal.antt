-- ===== src/Service/Internal.antt =====
-- service.rs: the answer to a delta that the validation accepts.
use tee.Base.{String, ◌≡◌, ap, ◌∙◌, ◌⊎◌, inl, inr, Option, none, some, ok, err, All}
use tee.Lattices.{Lattices}
use tee.Proto
use tee.Convert.{ConversionError, show_conversion_error, proto_node_to_domain, proto_edge_to_domain}
use tee.Validation.{Verdict}
use tee.Validation.Spec
use tee.Store.State.{InnerState, Outcome, backend}
use tee.Store.Hypothesis.{merge_nodes, no_results}
use tee.Store.Hypothesis
use tee.Store.Hypothesis.Replay.{
  first_error, merge_nodes-error, merge_edges-error, merge_hypothesis-failed,
  merge_hypothesis-merged,
}
use tee.Service.Runtime.{Runtime}
use tee.Service.Handlers
use tee.Service.Handlers.{checked_write, store_error_to_status}

module _ ⦃L : Lattices⦄ where
  -- The first node of a delta that does not convert, or else the first such edge.
  abbrev pub first_failure : Proto.HypothesisDelta → Option ConversionError
  first_failure d = elim (first_error proto_node_to_domain d.nodes) [
    | some e ↦ some e
    | none ↦ first_error proto_edge_to_domain d.edges
  ]

  -- The method of the store fails exactly with that.
  merge_hypothesis-first_failure :
      (d : Proto.HypothesisDelta) (s : InnerState)
      → ((e : ConversionError) × (first_failure d ≡ some e)
          × ((Hypothesis.merge_hypothesis d s).1 ≡ err (backend (show_conversion_error e))))
        ⊎ ((r : Proto.HypothesisMergeResult) × (first_failure d ≡ none)
            × ((Hypothesis.merge_hypothesis d s).1 ≡ ok r))
  merge_hypothesis-first_failure d s = elim (merge_nodes-error d.nodes s.nodes no_results) [
    | inl (e, f, g) ↦ inl (e, rw (first_failure, f), ap (λ o. o.1) (merge_hypothesis-failed d s g))
    | inr (r, f, g) ↦ elim (merge_edges-error d.edges s.edges r) [
      | inl (e, h, k) ↦
          inl (e, rw (first_failure, f) h, ap (λ o. o.1) (merge_hypothesis-merged d s g) ∙ k)
      | inr (q, h, k) ↦
          inr (q, rw (first_failure, f) h, ap (λ o. o.1) (merge_hypothesis-merged d s g) ∙ k)
    ]
  ]

module _ ⦃L : Lattices⦄ ⦃R : Runtime⦄ where
  checked_write-ok :
      {A : Type 0} (verdict : Verdict) (method : InnerState → Outcome A) (s : InnerState) (a : A)
      → verdict ≡ ok tt
      → (method s).1 ≡ ok a
      → (checked_write verdict method s).1 ≡ ok (R.response_new a)
  unfolding checked_write
  checked_write-ok verdict method s a v h = rw (v, checked_write, h)

  checked_write-backend :
      {A : Type 0} (verdict : Verdict) (method : InnerState → Outcome A) (s : InnerState)
      (m : String)
      → verdict ≡ ok tt
      → (method s).1 ≡ err (backend m)
      → (checked_write verdict method s).1 ≡ err (R.internal m)
  unfolding checked_write store_error_to_status
  checked_write-backend verdict method s m v h = rw (v, checked_write, h)

  -- A delta that passes the validation is answered either by an internal error, with the message of
  -- the first conversion that fails, of the nodes and then of the edges, or, where all its nodes and
  -- edges convert, by a response, also where nodes of it are in conflict with the store.
  pub merge_hypothesis-answered :
      (q : R.Request Proto.HypothesisDelta) (s : InnerState)
      → All Spec.IsValidNode (R.into_inner q).nodes
      → All Spec.IsValidEdge (R.into_inner q).edges
      → ((e : ConversionError) × (first_failure (R.into_inner q) ≡ some e)
          × ((Handlers.merge_hypothesis q s).1 ≡ err (R.internal (show_conversion_error e))))
        ⊎ ((r : Proto.HypothesisMergeResult) × (first_failure (R.into_inner q) ≡ none)
            × ((Handlers.merge_hypothesis q s).1 ≡ ok (R.response_new r)))
  unfolding Handlers.merge_hypothesis
  merge_hypothesis-answered q s vn ve =
      let d = R.into_inner q in
      let accepted = (Spec.validate_hypothesis_delta-ok d).1 (vn, ve) in
      elim (merge_hypothesis-first_failure d s) [
        | inl (e, f, h) ↦ inl (e, f, checked_write-backend _ _ s _ accepted h)
        | inr (r, f, h) ↦ inr (r, f, checked_write-ok _ _ s r accepted h)
      ]
