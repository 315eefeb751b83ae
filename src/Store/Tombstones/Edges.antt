-- ===== src/Store/Tombstones/Edges.antt =====
-- The loop over the entries: the set that it leaves and the lists that it reports, up to the first
-- entry whose type does not convert.
use tee.Base.{
  ℕ, ◌+◌, ◌⊎◌, length, length-push, Option-cases, ◌≡◌, refl, ap, ◌∙◌, inl, inr, String, List, [],
  ◌∷◌, arith, ok, err, Result-cases, Option, none, some,
}
use tee.Collections.BTreeSet
use tee.Collections.BTreeSet.{BTreeSet, extend, insert_present}
use tee.Lattices.{Lattices}
use tee.Proto
use tee.Domain.Edge.{EdgeKey, new_key, edge_ord, edge_key}
use tee.Convert.{edge_type_try_from, ConversionError, show_conversion_error}
use tee.Store.State.{backend}
use tee.Store.Hypothesis.Edges.{Edges}
use tee.Store.Tombstones.{no_tombstones, tombstone_edge, tombstone_edges, entry_id}

-- The keys of the entries before the first that does not convert, and its error.
unfoldable pub taken : List Proto.EdgeTombstoneEntry → List EdgeKey
taken [] = []
taken (e ∷ es) = elim (edge_type_try_from e.type) [
  | err _ ↦ []
  | ok t ↦ new_key e.source e.target t ∷ taken es
]

unfoldable pub refusal : List Proto.EdgeTombstoneEntry → Option ConversionError
refusal [] = none
refusal (e ∷ es) = elim (edge_type_try_from e.type) [ err f ↦ some f | ok _ ↦ refusal es ]

-- How many ids are reported.
abbrev pub reported : Proto.TombstoneMergeResult → ℕ
reported r = length r.applied_ids + length r.already_tombstoned_ids + length r.unmatched_ids

module _ ⦃L : Lattices⦄ where
  pub tombstone_edge-set :
      (edges : Edges) (id : String) (k : EdgeKey) (t : BTreeSet EdgeKey)
      (r : Proto.TombstoneMergeResult)
      → (tombstone_edge edges id k t r).0 ≡ BTreeSet.insert t k
  unfolding tombstone_edge
  tombstone_edge-set edges id k t r = ground (arith, insert_present t k)

  -- The loop extends the set by the keys that it takes.
  pub tombstone_edges-set :
      (edges : Edges) (es : List Proto.EdgeTombstoneEntry) (t : BTreeSet EdgeKey)
      (r : Proto.TombstoneMergeResult)
      → (tombstone_edges edges es t r).0 ≡ extend t (taken es)
  unfolding tombstone_edges taken extend
  tombstone_edges-set edges [] t r = refl
  tombstone_edges-set edges (e ∷ es) t r = elim (Result-cases (edge_type_try_from e.type)) [
    | inl (ty, h) ↦
        let k = new_key e.source e.target ty in
        let next = tombstone_edge edges (entry_id e) k t r in
        rw (h, tombstone_edges, taken)
          (tombstone_edges-set edges es next.0 next.1
            ∙ ap (λ s. extend s (taken es)) (tombstone_edge-set edges (entry_id e) k t r))
    | inr (f, h) ↦ rw (h, tombstone_edges, taken)
  ]

  -- The loop fails exactly where an entry does not convert, with that entry's error.
  tombstone_edges-error :
      (edges : Edges) (es : List Proto.EdgeTombstoneEntry) (t : BTreeSet EdgeKey)
      (r : Proto.TombstoneMergeResult) {f : ConversionError}
      → refusal es ≡ some f
      → (tombstone_edges edges es t r).1 ≡ err (backend (show_conversion_error f))
  unfolding tombstone_edges refusal
  tombstone_edges-error edges [] t r h = cc
  tombstone_edges-error edges (e ∷ es) t r h = elim (Result-cases (edge_type_try_from e.type)) [
    | inl (ty, g) ↦
        let next = tombstone_edge edges (entry_id e) (new_key e.source e.target ty) t r in
        rw (g, tombstone_edges)
          (tombstone_edges-error edges es next.0 next.1 (rw (g, refusal) at h))
    | inr (f', g) ↦ rw (g, tombstone_edges) (ground arith)
  ]

  tombstone_edges-ok :
      (edges : Edges) (es : List Proto.EdgeTombstoneEntry) (t : BTreeSet EdgeKey)
      (r : Proto.TombstoneMergeResult)
      → refusal es ≡ none
      → (q : Proto.TombstoneMergeResult) × ((tombstone_edges edges es t r).1 ≡ ok q)
  unfolding tombstone_edges refusal
  tombstone_edges-ok edges [] t r h = (r, refl)
  tombstone_edges-ok edges (e ∷ es) t r h = elim (Result-cases (edge_type_try_from e.type)) [
    | inl (ty, g) ↦
        let next = tombstone_edge edges (entry_id e) (new_key e.source e.target ty) t r in
        rw (g, tombstone_edges) (tombstone_edges-ok edges es next.0 next.1 (rw (g, refusal) at h))
    | inr (f', g) ↦ absurd (ground arith)
  ]

  tombstone_edge-counted :
      (edges : Edges) (id : String) (k : EdgeKey) (t : BTreeSet EdgeKey)
      (r : Proto.TombstoneMergeResult)
      → reported (tombstone_edge edges id k t r).1 ≡ reported r + 1
  unfolding tombstone_edge
  tombstone_edge-counted edges id k t r = ground (
    arith,
    length-push r.applied_ids id,
    length-push r.already_tombstoned_ids id,
    length-push r.unmatched_ids id,
  )

  -- Where the loop succeeds, it reports each entry once.
  tombstone_edges-counted :
      (edges : Edges) (es : List Proto.EdgeTombstoneEntry) (t : BTreeSet EdgeKey)
      (r : Proto.TombstoneMergeResult) {q : Proto.TombstoneMergeResult}
      → (tombstone_edges edges es t r).1 ≡ ok q
      → reported q ≡ reported r + length es
  unfolding tombstone_edges
  tombstone_edges-counted edges [] t r h = ground arith
  tombstone_edges-counted edges (e ∷ es) t r h = elim (Result-cases (edge_type_try_from e.type)) [
    | inl (ty, g) ↦
        let k = new_key e.source e.target ty in
        let next = tombstone_edge edges (entry_id e) k t r in
        ground (
          arith,
          tombstone_edges-counted edges es next.0 next.1 (rw (g, tombstone_edges) at h),
          tombstone_edge-counted edges (entry_id e) k t r,
        )
    | inr (f, g) ↦ absurd (ground arith)
  ]

  -- The loop fails with the error of the first entry that does not convert, where there is one, and
  -- else reports as many entries as there are.
  pub tombstone_edges-result :
      (edges : Edges) (es : List Proto.EdgeTombstoneEntry) (t : BTreeSet EdgeKey)
      → ((f : ConversionError) × (refusal es ≡ some f)
          × ((tombstone_edges edges es t no_tombstones).1
              ≡ err (backend (show_conversion_error f))))
        ⊎ ((q : Proto.TombstoneMergeResult) × (refusal es ≡ none)
            × ((tombstone_edges edges es t no_tombstones).1 ≡ ok q)
            × (reported q ≡ length es))
  tombstone_edges-result edges es t = elim (Option-cases (refusal es)) [
    | inr (f, h) ↦ inl (f, h, tombstone_edges-error edges es t no_tombstones h)
    | inl h ↦
        let (q, g) = tombstone_edges-ok edges es t no_tombstones h in
        inr (q, h, g, omega (arith, tombstone_edges-counted edges es t no_tombstones g))
  ]
