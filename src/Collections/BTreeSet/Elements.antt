-- ===== src/Collections/BTreeSet/Elements.antt =====
-- What a `BTreeSet` holds after it is collected or extended.
use Prim.Native.Nat.Ordering.{lt}
use mathlib.Core.List.{append-nil, append_assoc}
use tee.Base.{
  ◌≡◌, ◌≢◌, refl, ap, ◌∙◌, true, false, ◌||◌, List, [], ◌∷◌, ◌++◌, arith, Ord, All, All-append,
  push, length, ◌⊎◌, inl, inr, ◌<◌, ◌+◌, sym,
}
use tee.Base.Order.{cmp_congr_right}
use tee.Collections.BTreeSet.{
  BTreeSet, is_eq, get, contains, insert, replace, extend, replace_all, from_iter, Above, IsSorted,
}
use tee.Collections.BTreeSet.Laws.{
  has, contains-extend, has-all, extend_present, All-insert, All-replace,
}

module _ {ℓ} {A : Type ℓ} ⦃o : Ord A⦄ where
  -- A predicate of all the elements put in holds of all that are stored.
  pub All-extend {κ} :
      (P : A → Type κ) (s : BTreeSet A) (xs : List A) → All P s → All P xs → All P (extend s xs)
  unfolding extend
  All-extend P s [] hs hx = hs
  All-extend P s (x ∷ xs) hs hx = All-extend P (insert s x) xs (All-insert P s x hx.0 hs) hx.1

  All-replace_all {κ} :
      (P : A → Type κ) (s : BTreeSet A) (xs : List A)
      → All P s
      → All P xs
      → All P (replace_all s xs)
  unfolding replace_all
  All-replace_all P s [] hs hx = hs
  All-replace_all P s (x ∷ xs) hs hx =
      All-replace_all P (replace s x) xs (All-replace P s x hx.0 hs) hx.1

  pub All-from_iter {κ} : (P : A → Type κ) (xs : List A) → All P xs → All P (from_iter xs)
  unfolding from_iter
  All-from_iter P xs h = All-replace_all P [] xs tt h

  contains-replace :
      (s : BTreeSet A) (x y : A) → contains (replace s x) y ≡ is_eq (o.cmp y x) || contains s y
  unfolding get replace
  contains-replace [] x y = ground arith
  contains-replace (z ∷ s) x y = ground (
    arith,
    contains-replace s x y,
    o.lt_trans y x z,
    o.gt_of_lt x z,
    o.cmp_congr y x z,
    cmp_congr_right x z y,
  )

  contains-replace_all :
      (s : BTreeSet A) (xs : List A) (y : A)
      → contains (replace_all s xs) y ≡ contains s y || has xs y
  unfolding replace_all
  contains-replace_all s [] y = ground arith
  contains-replace_all s (x ∷ xs) y =
      ground (arith, contains-replace_all (replace s x) xs y, contains-replace s x y)

  contains-from_iter : (xs : List A) (y : A) → contains (from_iter xs) y ≡ has xs y
  unfolding from_iter get
  contains-from_iter xs y = contains-replace_all [] xs y

  replace_above :
      (s : BTreeSet A) (x : A) → All (λ y. o.cmp y x ≡ lt) s → replace s x ≡ s ++ (x ∷ [])
  unfolding replace
  replace_above [] x h = refl
  replace_above (y ∷ s) x h = ground (arith, replace_above s x, o.gt_of_lt y x)

  -- Every element of the first list lies below every one of the second.
  abbrev Before : BTreeSet A → BTreeSet A → Type 0
  Before s xs = All (λ x. All (λ y. o.cmp y x ≡ lt) s) xs

  Before-push :
      (s : BTreeSet A) (x : A) (xs : List A) → Above x xs → Before s xs → Before (s ++ (x ∷ [])) xs
  Before-push s x [] a b = tt
  Before-push s x (z ∷ xs) a b =
      (All-append (λ y. o.cmp y z ≡ lt) s (x ∷ []) b.0 (a.0, tt), Before-push s x xs a.1 b.1)

  replace_all_sorted :
      (s : BTreeSet A) (xs : List A) → IsSorted xs → Before s xs → replace_all s xs ≡ s ++ xs
  unfolding replace_all
  replace_all_sorted s [] h b = sym (append-nil s)
  replace_all_sorted s (x ∷ xs) h b = rw (replace_above s x b.0) (
      replace_all_sorted (s ++ (x ∷ [])) xs h.1 (Before-push s x xs h.0 b.1)
      ∙ append_assoc s (x ∷ []) xs)

  Before-nil : (xs : List A) → Before [] xs
  Before-nil [] = tt
  Before-nil (x ∷ xs) = (tt, Before-nil xs)

  -- Collecting a list that is in order already gives that list.
  pub from_iter_sorted : (s : BTreeSet A) → IsSorted s → from_iter s ≡ s
  unfolding from_iter
  from_iter_sorted s h = replace_all_sorted [] s h (Before-nil s)

  -- If the second set adds nothing to the first, it adds nothing to any set that grew from it.
  pub extend_kept : (s t u : BTreeSet A) → extend s t ≡ s → extend (extend s u) t ≡ extend s u
  extend_kept s t u h = extend_present (extend s u) t (present t (has-all t))
    where
      present :
          (ys : List A)
          → All (λ y. has t y ≡ true) ys
          → All (λ y. contains (extend s u) y ≡ true) ys
      present [] k = tt
      present (y ∷ ys) k = (
        ground (arith, contains-extend s u y, contains-extend s t y, ap (λ v. contains v y) h),
        present ys k.1,
      )

  has-Above : (x y : A) (s : BTreeSet A) → o.cmp y x ≡ lt → Above x s → has s y ≡ false
  has-Above x y [] h a = refl
  has-Above x y (z ∷ s) h a = rw (o.lt_trans y x z h a.0) (has-Above x y s h a.1)

  -- In a sorted set an element is found exactly where the list holds an equal one.
  pub contains-has : (s : BTreeSet A) (y : A) → IsSorted s → contains s y ≡ has s y
  unfolding get
  contains-has [] y h = refl
  contains-has (x ∷ s) y h = ground (arith, contains-has s y h.1, has-Above x y s)

  -- A sorted set extended by itself is itself.
  pub extend_self : (s : BTreeSet A) → IsSorted s → extend s s ≡ s
  extend_self s h = extend_present s s (present s (has-all s))
    where
      present : (ys : List A) → All (λ y. has s y ≡ true) ys → All (λ y. contains s y ≡ true) ys
      present [] k = tt
      present (y ∷ ys) k = (contains-has s y h ∙ k.0, present ys k.1)

  insert-ne-nil : (s : BTreeSet A) (x : A) → insert s x ≢ []
  unfolding insert
  insert-ne-nil [] x h = cc
  insert-ne-nil (y ∷ s) x h = ground arith

  -- A set that holds something holds something after it was extended.
  pub extend-ne-nil : (s : BTreeSet A) (xs : List A) → s ≢ [] → extend s xs ≢ []
  unfolding extend
  extend-ne-nil s [] h = h
  extend-ne-nil s (x ∷ xs) h = extend-ne-nil (insert s x) xs (insert-ne-nil s x)

  replace-ne-nil : (s : BTreeSet A) (x : A) → replace s x ≢ []
  unfolding replace
  replace-ne-nil [] x h = cc
  replace-ne-nil (y ∷ s) x h = ground arith

  replace_all-ne-nil : (s : BTreeSet A) (xs : List A) → s ≢ [] → replace_all s xs ≢ []
  unfolding replace_all
  replace_all-ne-nil s [] h = h
  replace_all-ne-nil s (x ∷ xs) h = replace_all-ne-nil (replace s x) xs (replace-ne-nil s x)

  pub from_iter-ne-nil : (xs : List A) → xs ≢ [] → from_iter xs ≢ []
  unfolding from_iter replace_all
  from_iter-ne-nil [] h = h
  from_iter-ne-nil (x ∷ xs) h = replace_all-ne-nil (replace [] x) xs (replace-ne-nil [] x)

  pub has-push : (xs : List A) (x y : A) → has (push xs x) y ≡ has xs y || is_eq (o.cmp y x)
  has-push [] x y = ground arith
  has-push (z ∷ xs) x y = ground (arith, has-push xs x y)

  -- A set extended by some elements contains each of them.
  pub contains_all-extend :
      (s : BTreeSet A) (xs : List A) → All (λ y. contains (extend s xs) y ≡ true) xs
  contains_all-extend s xs = present xs (has-all xs)
    where
      present :
          (ys : List A)
          → All (λ y. has xs y ≡ true) ys
          → All (λ y. contains (extend s xs) y ≡ true) ys
      present [] h = tt
      present (y ∷ ys) h = (ground (arith, contains-extend s xs y), present ys h.1)

  insert-grows : (s : BTreeSet A) (x : A) → (insert s x ≡ s) ⊎ (length (insert s x) ≡ length s + 1)
  unfolding insert
  insert-grows [] x = inr (omega arith)
  insert-grows (y ∷ s) x = ground (arith, insert-grows s x)

  -- Extending a set makes it longer, or leaves it as it was.
  pub extend-grows :
      (s : BTreeSet A) (xs : List A) → (extend s xs ≡ s) ⊎ (length s < length (extend s xs))
  unfolding extend
  extend-grows s [] = inl refl
  extend-grows s (x ∷ xs) = elim (insert-grows s x) [
    | inl same ↦ rw same (extend-grows s xs)
    | inr longer ↦ elim (extend-grows (insert s x) xs) [
      | inl e ↦ inr (rw e (omega arith))
      | inr l ↦ inr (omega arith)
    ]
  ]
