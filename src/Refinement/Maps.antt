-- ===== src/Refinement/Maps.antt =====
-- A `BTreeMap` seen as a partial map: what `insert` is there.
use tee.Base.{
  ◌≡◌, refl, sym, ap, ◌∙◌, fun_ext, inl, inr, Bool, true, false, Option, some, arith, KeyOrd,
  Bool-cases, if◌then◌else◌,
}
use tee.Collections.BTreeSet.{is_eq}
use tee.Collections.BTreeMap.{BTreeMap, get, insert, get-insert}
use tee.Reference.{set}

if_some {ℓ κ} :
    {A : Type ℓ} {B : Type κ} (f : Option A → B) (b : Bool) (x y : Option A)
    → f (if b then x else y) ≡ (if b then f x else f y)
if_some f true x y = refl
if_some f false x y = refl

module _ {ℓ κ μ} {K : Type ℓ} {V : Type κ} {W : Type μ} ⦃o : KeyOrd K⦄ where
  pub view-insert :
      (f : Option V → Option W) (m : BTreeMap K V) (k : K) (v : V) {w : W}
      → f (some v) ≡ some w
      → ◌≡◌ {A = K → Option W} (λ j. f (get (insert m k v) j)) (set (λ j. f (get m j)) k w)
  view-insert f m k v h = fun_ext (λ j.
      ap f (get-insert m k v j)
      ∙ if_some f (is_eq (o.cmp j k)) (some v) (get m j)
      ∙ ap (λ x. if is_eq (o.cmp j k) then x else f (get m j)) h)

module _ {ℓ μ} {K : Type ℓ} {W : Type μ} ⦃o : KeyOrd K⦄ where
  -- Writing what is there changes nothing.
  pub set_same : (m : K → Option W) (k : K) (w : W) → m k ≡ some w → set m k w ≡ m
  set_same m k w h = fun_ext (λ j. elim (Bool-cases (is_eq (o.cmp j k))) [
    | inl c ↦ let same : j ≡ k = ground (arith, o.eq_of_cmp j k) in rw (c, same) (sym h)
    | inr c ↦ rw c
  ])
