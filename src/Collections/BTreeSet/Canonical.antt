-- ===== src/Collections/BTreeSet/Canonical.antt =====
-- `BTreeSet`s of elements that are equal where they compare equal: sets compared by what they contain.
use Prim.Native.Nat.Ordering.{eq, gt}
use tee.Base.{◌≡◌, refl, ap, sym, ◌∙◌, false, List, [], ◌∷◌, arith, Ord, subst}
use tee.Collections.BTreeSet.{BTreeSet, get, contains, extend, Above, IsSorted}
use tee.Collections.BTreeSet.Laws.{contains-extend, extend-IsSorted}

module _ {ℓ} {A : Type ℓ} ⦃o : Ord A⦄ where
  -- What is not above the least element of a set is not in the rest of it.
  contains-below :
      (x : A) (s : BTreeSet A) (y : A) → Above x s → (o.cmp y x ≡ gt → ⊥) → contains s y ≡ false
  unfolding get
  contains-below x [] y h k = refl
  contains-below x (z ∷ s) y h k = ground (arith, h.0, o.lt_trans y x z, o.cmp_congr y x z)

  -- The least elements of two sets with the same elements are equal.
  heads :
      (x : A) (s : BTreeSet A) (y : A) (t : BTreeSet A)
      → contains (x ∷ s) x ≡ contains (y ∷ t) x
      → contains (x ∷ s) y ≡ contains (y ∷ t) y
      → o.cmp x y ≡ eq
  unfolding get
  heads x s y t h k = ground (arith, o.cmp_refl x, o.cmp_refl y, o.lt_of_gt x y, o.gt_of_lt x y)

  -- Without the least element they have the same elements still.
  tails :
      (x : A) (s t : BTreeSet A) (z : A)
      → Above x s
      → Above x t
      → contains (x ∷ s) z ≡ contains (x ∷ t) z
      → contains s z ≡ contains t z
  unfolding get
  tails x s t z hs ht h = ground (arith, contains-below x s z hs, contains-below x t z ht)

module _ {ℓ} {A : Type ℓ} ⦃o : Ord A⦄ (eq_of_cmp : (a b : A) → o.cmp a b ≡ eq → a ≡ b) where
  contains_ext :
      (s t : BTreeSet A) → IsSorted s → IsSorted t → ((y : A) → contains s y ≡ contains t y) → s ≡ t
  unfolding get
  contains_ext [] [] hs ht h = refl
  contains_ext [] (y ∷ t) hs ht h = ground (arith, h y, o.cmp_refl y)
  contains_ext (x ∷ s) [] hs ht h = ground (arith, h x, o.cmp_refl x)
  contains_ext (x ∷ s) (y ∷ t) hs ht h =
      let same : y ≡ x = sym (eq_of_cmp x y (heads x s y t (h x) (h y))) in
      let above : Above x t = subst (λ z. Above z t) same ht.0 in
      let rest =
        contains_ext s t hs.1 ht.1
          (λ z. tails x s t z hs.0 above (h z ∙ ap (λ w. contains (w ∷ t) z) same)) in
      λ i. sym same i ∷ rest i

  -- Two extensions commute.
  pub extend_comm :
      (s : BTreeSet A) (xs ys : List A)
      → IsSorted s
      → extend (extend s xs) ys ≡ extend (extend s ys) xs
  extend_comm s xs ys h =
      contains_ext _ _ (extend-IsSorted (extend s xs) ys (extend-IsSorted s xs h))
        (extend-IsSorted (extend s ys) xs (extend-IsSorted s ys h))
        (λ y. ground (
          arith,
          contains-extend (extend s xs) ys y,
          contains-extend s xs y,
          contains-extend (extend s ys) xs y,
          contains-extend s ys y,
        ))
