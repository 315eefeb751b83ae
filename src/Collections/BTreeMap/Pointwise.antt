-- ===== src/Collections/BTreeMap/Pointwise.antt =====
-- Merging the entries of one `BTreeMap` into another, one after the other, read at a key.

use tee.Base.{
  ◌≡◌, refl, ap, ◌∙◌, inl, inr, Option, none, some, [], ◌∷◌, All, arith, KeyOrd, if◌then◌else◌,
}
use tee.Base.Order.{Ordering-cases}
use tee.Base.Fold.{fold_all}
use tee.Collections.BTreeSet.{is_eq}
use tee.Collections.BTreeMap.{BTreeMap, get, IsSorted}
use tee.Collections.BTreeMap.Laws.{get-Above, Above-trans}

-- What is under a key after the other map's entry for it, if there is one.
abbrev pub absorb_all {ℓ} :
    {V : Type ℓ} → (Option V → V → Option V) → Option V → Option V → Option V
absorb_all absorb x none = x
absorb_all absorb x (some v) = absorb x v

module _ {ℓ} {K V : Type ℓ} ⦃o : KeyOrd K⦄ (absorb : Option V → V → Option V)
    (step : K × V → BTreeMap K V → BTreeMap K V) (Put : K × V → Type ℓ)
    (get-step : (e : K × V) (m : BTreeMap K V) (j : K)
      → Put e
      → get (step e m) j ≡ (if is_eq (o.cmp j e.0) then absorb (get m e.0) e.1 else get m j)) where
  -- A step that changes one key, done for each entry of a map in order, changes each key by the
  -- entry under it.
  pub get-fold_all :
      (n m : BTreeMap K V) (j : K)
      → IsSorted n
      → All Put n
      → get (fold_all step n m) j ≡ absorb_all absorb (get m j) (get n j)
  unfolding fold_all get
  get-fold_all [] m j s h = refl
  get-fold_all ((k, v) ∷ n) m j s h =
      get-fold_all n (step (k, v) m) j s.1 h.1 ∙ elim (Ordering-cases (o.cmp j k)) [
        | inl c ↦
            let gone = get-Above n j (Above-trans j k n c s.0) in
            rw (c, get, gone) (ground (arith, get-step (k, v) m j h.0))
        | inr (inl c) ↦
            let same = o.eq_of_cmp j k c in
            let gone = get-Above n j (rw same s.0) in
            rw (c, get, gone) (ground (arith, get-step (k, v) m j h.0, ap (get m) same))
        | inr (inr c) ↦
            let kept : get (step (k, v) m) j ≡ get m j = get-step (k, v) m j h.0 ∙ ground arith in
            rw (c, get, kept)
      ]
