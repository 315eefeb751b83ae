-- ===== src/Collections/BTreeMap/Laws.antt =====
-- What insertion does to the entries and to the order of a `BTreeMap`.
use Prim.Native.Nat.Ordering.{lt}
use tee.Base.{
  ◌++◌, All-append, All-imp, none, [], ◌≡◌, ◌≢◌, ◌⊎◌, ◌∙◌, ap, refl, none, some, [], ◌∷◌, arith,
  KeyOrd, All, inl, inr,
}
use tee.Base.Order.{Ordering-cases}
use tee.Collections.BTreeMap.{BTreeMap, get, insert, Above, IsSorted, get-insert}

module _ {ℓ κ} {K : Type ℓ} {V : Type κ} ⦃o : KeyOrd K⦄ where
  pub All-insert {μ} :
      (P : K × V → Type μ) (m : BTreeMap K V) (k : K) (v : V)
      → P (k, v)
      → All P m
      → All P (insert m k v)
  unfolding insert
  All-insert P [] k v p h = (p, tt)
  All-insert P ((j, w) ∷ m) k v p h = ground (arith, All-insert P m k v)

  -- A predicate of all the entries holds of what a lookup finds.
  pub get-All {μ} :
      (P : K × V → Type μ) (m : BTreeMap K V) (k : K) (v : V)
      → All P m
      → get m k ≡ some v
      → P (k, v)
  unfolding get
  get-All P [] k v h e = cc
  get-All P ((j, w) ∷ m) k v h e = elim (Ordering-cases (o.cmp k j)) [
    | inl c ↦ absurd (ground arith)
    | inr (inl c) ↦
        let same : ◌≡◌ {A = K × V} (k, v) (j, w) = ground (arith, o.eq_of_cmp k j) in rw same h.0
    | inr (inr c) ↦ get-All P m k v h.1 (ground arith)
  ]

  pub Above-trans : (k j : K) (m : BTreeMap K V) → o.cmp k j ≡ lt → Above j m → Above k m
  Above-trans k j [] h a = tt
  Above-trans k j (e ∷ m) h a = (o.lt_trans k j e.0 h a.0, Above-trans k j m h a.1)

  pub insert-IsSorted : (m : BTreeMap K V) (k : K) (v : V) → IsSorted m → IsSorted (insert m k v)
  unfolding insert
  insert-IsSorted [] k v h = (tt, tt)
  insert-IsSorted ((j, w) ∷ m) k v h = ground (
    arith,
    insert-IsSorted m k v,
    Above-trans k j m,
    All-insert (λ e. o.cmp j e.0 ≡ lt) m k v,
    o.lt_of_gt k j,
    o.eq_of_cmp k j,
  )

  pub get-Above : (m : BTreeMap K V) (k : K) → Above k m → get m k ≡ none
  unfolding get
  get-Above [] k a = refl
  get-Above ((j, w) ∷ m) k a = rw (a.0, get)

  pub get-insert_self : (m : BTreeMap K V) (k : K) (v : V) → get (insert m k v) k ≡ some v
  get-insert_self m k v = rw (get-insert m k v k, o.cmp_refl k)

  pub get-insert_ne :
      (m : BTreeMap K V) (k : K) (v : V) (j : K) → j ≢ k → get (insert m k v) j ≡ get m j
  get-insert_ne m k v j n = get-insert m k v j ∙ ground (arith, o.eq_of_cmp j k)

module _ {ℓ} {K : Type ℓ} ⦃o : KeyOrd K⦄ where
  -- Two keys are equal or not.
  pub Key-cases : (j k : K) → (j ≡ k) ⊎ (j ≢ k)
  Key-cases j k = elim (Ordering-cases (o.cmp j k)) [
    | inl c ↦ inr (λ e. ground (arith, o.cmp_refl j, ap (o.cmp j) e))
    | inr (inl c) ↦ inl (o.eq_of_cmp j k c)
    | inr (inr c) ↦ inr (λ e. ground (arith, o.cmp_refl j, ap (o.cmp j) e))
  ]

module _ {ℓ κ} {K : Type ℓ} {V : Type κ} ⦃o : KeyOrd K⦄ where
  -- Of two writes under one key the later counts.
  pub insert-insert :
      (m : BTreeMap K V) (k : K) (v w : V) → insert (insert m k v) k w ≡ insert m k w
  unfolding insert
  insert-insert [] k v w = rw (o.cmp_refl k)
  insert-insert ((j, u) ∷ m) k v w = ground (arith, o.cmp_refl k, insert-insert m k v w)

  -- Writes under two keys can be swapped.
  pub insert_comm :
      (m : BTreeMap K V) (k j : K) (v w : V)
      → j ≢ k
      → insert (insert m k v) j w ≡ insert (insert m j w) k v
  unfolding insert
  insert_comm [] k j v w n =
      ground (arith, o.eq_of_cmp j k, o.lt_of_gt j k, o.gt_of_lt j k, o.eq_of_cmp k j)
  insert_comm ((i, u) ∷ m) k j v w n = ground (
    arith,
    insert_comm m k j v w n,
    o.eq_of_cmp j k,
    o.eq_of_cmp k j,
    o.lt_of_gt j k,
    o.gt_of_lt j k,
    o.lt_of_gt k j,
    o.gt_of_lt k j,
    o.eq_of_cmp j i,
    o.eq_of_cmp k i,
    o.lt_of_gt j i,
    o.lt_of_gt k i,
    o.gt_of_lt j i,
    o.gt_of_lt k i,
    o.lt_trans j i k,
    o.lt_trans k i j,
    o.lt_trans j k i,
    o.lt_trans k j i,
  )

module _ {ℓ κ} {K : Type ℓ} {V : Type κ} ⦃o : KeyOrd K⦄ where
  -- Every key of the first map lies below every one of the second.
  abbrev pub Before : BTreeMap K V → BTreeMap K V → Type 0
  Before m n = All (λ e. All (λ d. o.cmp d.0 e.0 ≡ lt) m) n

  pub Before-nil : (n : BTreeMap K V) → Before [] n
  Before-nil [] = tt
  Before-nil (e ∷ n) = (tt, Before-nil n)

  pub Before-push :
      (m : BTreeMap K V) (e : K × V) (n : BTreeMap K V)
      → Above e.0 n
      → Before m n
      → Before (m ++ (e ∷ [])) n
  Before-push m e [] a b = tt
  Before-push m e (d ∷ n) a b =
      (All-append (λ c. o.cmp c.0 d.0 ≡ lt) m (e ∷ []) b.0 (a.0, tt), Before-push m e n a.1 b.1)

  -- A key above all others is not there, and is inserted at the end.
  pub get_beyond : (m : BTreeMap K V) (k : K) → All (λ d. o.cmp d.0 k ≡ lt) m → get m k ≡ none
  unfolding get
  get_beyond [] k h = refl
  get_beyond ((j, w) ∷ m) k h = ground (arith, get_beyond m k, o.gt_of_lt j k)

  pub insert_beyond :
      (m : BTreeMap K V) (k : K) (v : V)
      → All (λ d. o.cmp d.0 k ≡ lt) m
      → insert m k v ≡ m ++ ((k, v) ∷ [])
  unfolding insert
  insert_beyond [] k v h = refl
  insert_beyond ((j, w) ∷ m) k v h = ground (arith, insert_beyond m k v, o.gt_of_lt j k)

  get_before :
      (m : BTreeMap K V) (j : K) (w : V) (k : K) {v : V}
      → Above j m
      → get m k ≡ some v
      → get ((j, w) ∷ m) k ≡ some v
  unfolding get
  get_before m j w k a h = elim (Ordering-cases (o.cmp k j)) [
    | inl c ↦ absurd (ground (arith, get-Above m k (Above-trans k j m c a)))
    | inr (inl c) ↦ absurd (ground (arith, get-Above m k (rw (o.eq_of_cmp k j c) a)))
    | inr (inr c) ↦ rw (c, get) h
  ]

  -- In a sorted map each entry is what a lookup of its key finds.
  pub get_all : (m : BTreeMap K V) → IsSorted m → All (λ e. get m e.0 ≡ some e.1) m
  get_all [] h = tt
  get_all ((j, w) ∷ m) h = (
    unfold get in rw (o.cmp_refl j, get),
    All-imp (λ e. get_before m j w e.0 h.0) m (get_all m h.1),
  )
