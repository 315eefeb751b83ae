-- ===== src/Refinement/Lookup.antt =====
-- A list of messages made of the entries of a map, read back by keys.
use tee.Base.{
  filter-nil, filter-cons, ◌&&◌, ◌≡◌, ap, ◌∙◌, inl, inr, Bool, Option, none, some, List, [], ◌∷◌,
  map, filter, arith, All, KeyOrd, Bool-cases, if◌then◌else◌,
}
use tee.Base.Order.{Ordering-cases}
use tee.Collections.BTreeSet.{is_eq}
use tee.Collections.BTreeMap.{BTreeMap, get, IsSorted}
use tee.Collections.BTreeMap.Laws.{get-Above, Above-trans}

-- What the first message that belongs to a key says.
abbrev pub lookup {ℓ κ μ} :
    {K : Type ℓ} {M : Type κ} {W : Type μ} → (K → M → Bool) → (M → Option W) → List M → K → Option W
lookup belongs read [] k = none
lookup belongs read (x ∷ xs) k = if belongs k x then read x else lookup belongs read xs k

module _ {K V M W : Type 0} ⦃o : KeyOrd K⦄ (message : K × V → M) (belongs : K → M → Bool)
    (read : M → Option W) (seen : Option V → Option W) (seen-none : seen none ≡ none)
    (belongs-message : (k : K) (e : K × V) → belongs k (message e) ≡ is_eq (o.cmp k e.0)) where
  -- One entry more in front: it is passed over, or says what there is to say.
  lookup-cons :
      (live : K → Bool) (j : K) (a : V) (m : BTreeMap K V) (k : K)
      → lookup belongs read (map message (filter (λ e. live e.0) ((j, a) ∷ m))) k ≡ (
          if live j && is_eq (o.cmp k j)
          then read (message (j, a))
          else lookup belongs read (map message (filter (λ e. live e.0) m)) k)
  lookup-cons live j a m k = elim (Bool-cases (live j)) [
    | inl p ↦ rw (filter-cons, p, belongs-message)
    | inr p ↦ rw (filter-cons, p)
  ]

  -- The messages of the entries that pass a test of the keys say of a key what the map has under it,
  -- where the key passes.
  pub lookup-messages :
      (live : K → Bool) (m : BTreeMap K V) (k : K)
      → IsSorted m
      → All (λ e. read (message e) ≡ seen (some e.1)) m
      → lookup belongs read (map message (filter (λ e. live e.0) m)) k
        ≡ (if live k then seen (get m k) else none)
  unfolding get
  lookup-messages live [] k s h =
      rw (filter-nil (λ (e : K × V). live e.0), get, seen-none) (ground arith)
  lookup-messages live ((j, a) ∷ m) k s h =
      let rest = lookup-messages live m k s.1 h.1 in
      lookup-cons live j a m k ∙ elim (Ordering-cases (o.cmp k j)) [
        | inl c ↦
            let gone = get-Above m k (Above-trans k j m c s.0) in
            rw (c, get) (ground (arith, rest, gone))
        | inr (inl c) ↦
            let same = o.eq_of_cmp k j c in rw (c, get) (ground (arith, rest, h.0, ap live same))
        | inr (inr c) ↦ rw (c, get) (ground (arith, rest))
      ]
