-- ===== src/Collections/BTreeSet/Joins.antt =====
-- The union of `BTreeSet`s of elements that may compare equal and differ.
use Prim.Native.Nat.Ordering.{gt}
use tee.Base.{
  ◌≡◌, refl, ap, sym, subst, ◌∙◌, Option, none, some, List, [], ◌∷◌, arith, Ord, if◌then◌else◌,
}
use tee.Base.Order.{cmp_congr_right}
use tee.Collections.BTreeSet.{
  replace, replace_all, from_iter, BTreeSet, get, insert, extend, Above, IsSorted, is_eq,
}
use tee.Collections.BTreeSet.Laws.{extend-IsSorted}

abbrev pub or_else {ℓ} : {A : Type ℓ} → Option A → Option A → Option A
or_else none b = b
or_else (some a) b = some a

or_else_assoc {ℓ} :
    {A : Type ℓ} (a b c : Option A) → or_else (or_else a b) c ≡ or_else a (or_else b c)
or_else_assoc none b c = refl
or_else_assoc (some a) b c = refl

or_else-none {ℓ} : {A : Type ℓ} (a : Option A) → or_else a none ≡ a
or_else-none none = refl
or_else-none (some a) = refl

module _ {ℓ} {A : Type ℓ} ⦃o : Ord A⦄ where
  -- The first element of a list that is equal to `y`.
  abbrev pub first : List A → A → Option A
  first [] y = none
  first (x ∷ xs) y = if is_eq (o.cmp y x) then some x else first xs y

  get-insert :
      (s : BTreeSet A) (x y : A)
      → get (insert s x) y ≡ or_else (get s y) (if is_eq (o.cmp y x) then some x else none)
  unfolding get insert
  get-insert [] x y = ground arith
  get-insert (z ∷ s) x y =
      ground (arith, get-insert s x y, o.lt_trans y x z, o.gt_of_lt x z, o.cmp_congr y x z)

  -- A union keeps what is in the set, and else the first of the elements that are added.
  pub get-extend :
      (s : BTreeSet A) (xs : List A) (y : A) → get (extend s xs) y ≡ or_else (get s y) (first xs y)
  unfolding extend
  get-extend s [] y = ground arith
  get-extend s (x ∷ xs) y = ground (arith, get-extend (insert s x) xs y, get-insert s x y)

  get-Above_lem :
      (x : A) (s : BTreeSet A) (y : A) → Above x s → (o.cmp y x ≡ gt → ⊥) → get s y ≡ none
  unfolding get
  get-Above_lem x [] y h k = refl
  get-Above_lem x (z ∷ s) y h k = ground (arith, h.0, o.lt_trans y x z, o.cmp_congr y x z)

  pub first-get : (s : BTreeSet A) (y : A) → IsSorted s → first s y ≡ get s y
  unfolding get
  first-get [] y h = refl
  first-get (x ∷ s) y h = ground (arith, first-get s y h.1, get-Above_lem x s y h.0)

  heads :
      (x : A) (s : BTreeSet A) (y : A) (t : BTreeSet A)
      → get (x ∷ s) x ≡ get (y ∷ t) x
      → get (x ∷ s) y ≡ get (y ∷ t) y
      → x ≡ y
  unfolding get
  heads x s y t h k = ground (arith, o.cmp_refl x, o.cmp_refl y, o.lt_of_gt x y, o.gt_of_lt x y)

  tails :
      (x : A) (s t : BTreeSet A) (z : A)
      → Above x s
      → Above x t
      → get (x ∷ s) z ≡ get (x ∷ t) z
      → get s z ≡ get t z
  unfolding get
  tails x s t z hs ht h = ground (arith, get-Above_lem x s z hs, get-Above_lem x t z ht)

  -- Sets in order that have the same elements, each as it is stored, are the same.
  get_ext : (s t : BTreeSet A) → IsSorted s → IsSorted t → ((y : A) → get s y ≡ get t y) → s ≡ t
  unfolding get
  get_ext [] [] hs ht h = refl
  get_ext [] (y ∷ t) hs ht h = ground (arith, h y, o.cmp_refl y)
  get_ext (x ∷ s) [] hs ht h = ground (arith, h x, o.cmp_refl x)
  get_ext (x ∷ s) (y ∷ t) hs ht h =
      let same : y ≡ x = sym (heads x s y t (h x) (h y)) in
      let above : Above x t = subst (λ z. Above z t) same ht.0 in
      let rest =
        get_ext s t hs.1 ht.1
          (λ z. tails x s t z hs.0 above (h z ∙ ap (λ w. get (w ∷ t) z) same)) in
      λ i. sym same i ∷ rest i

  pub extend_assoc :
      (s t : BTreeSet A) (u : List A)
      → IsSorted s
      → IsSorted t
      → extend (extend s t) u ≡ extend s (extend t u)
  extend_assoc s t u hs ht =
      get_ext _ _ (extend-IsSorted (extend s t) u (extend-IsSorted s t hs))
        (extend-IsSorted s (extend t u) hs)
        (λ y.
          get-extend (extend s t) u y
          ∙ ap (λ a. or_else a (first u y)) (get-extend s t y)
          ∙ or_else_assoc (get s y) (first t y) (first u y)
          ∙ ap (λ a. or_else (get s y) (or_else a (first u y))) (first-get t y ht)
          ∙ ap (or_else (get s y)) (sym (get-extend t u y))
          ∙ ap (or_else (get s y)) (sym (first-get (extend t u) y (extend-IsSorted t u ht)))
          ∙ sym (get-extend s (extend t u) y))

  -- The last element of a list that is equal to `y`.
  abbrev pub last : List A → A → Option A
  last [] y = none
  last (x ∷ xs) y = or_else (last xs y) (if is_eq (o.cmp y x) then some x else none)

  get-replace :
      (s : BTreeSet A) (x y : A)
      → get (replace s x) y ≡ or_else (if is_eq (o.cmp y x) then some x else none) (get s y)
  unfolding get replace
  get-replace [] x y = ground arith
  get-replace (z ∷ s) x y = ground (
    arith,
    get-replace s x y,
    o.lt_trans y x z,
    o.gt_of_lt x z,
    o.cmp_congr y x z,
    cmp_congr_right x z y,
  )

  get-replace_all :
      (s : BTreeSet A) (xs : List A) (y : A)
      → get (replace_all s xs) y ≡ or_else (last xs y) (get s y)
  unfolding replace_all
  get-replace_all s [] y = refl
  get-replace_all s (x ∷ xs) y =
      get-replace_all (replace s x) xs y
      ∙ ap (or_else (last xs y)) (get-replace s x y)
      ∙ sym (or_else_assoc (last xs y) _ (get s y))

  -- Of equal elements a collected set has the last.
  pub get-from_iter : (xs : List A) (y : A) → get (from_iter xs) y ≡ last xs y
  unfolding from_iter get
  get-from_iter xs y = get-replace_all [] xs y ∙ or_else-none (last xs y)
