-- ===== src/Collections/BTreeSet/Laws.antt =====
-- What insertion, extension and collection do to membership, to the stored elements and to the
-- order of a `BTreeSet`.
use Prim.Native.Nat.Ordering.{lt, eq}
use tee.Base.{◌≡◌, refl, ◌∙◌, Bool, true, false, ◌||◌, some, List, [], ◌∷◌, arith, Ord, All}
use tee.Collections.BTreeSet.{
  BTreeSet, is_eq, get, contains, insert, replace, extend, replace_all, from_iter, Above, IsSorted,
  contains-insert, insert_present,
}

module _ {ℓ} {A : Type ℓ} ⦃o : Ord A⦄ where
  -- Some element of a list is equal to `y`.
  abbrev pub has : List A → A → Bool
  has [] y = false
  has (x ∷ xs) y = is_eq (o.cmp y x) || has xs y

  pub contains-extend :
      (s : BTreeSet A) (xs : List A) (y : A) → contains (extend s xs) y ≡ contains s y || has xs y
  unfolding extend
  contains-extend s [] y = ground arith
  contains-extend s (x ∷ xs) y =
      ground (arith, contains-extend (insert s x) xs y, contains-insert s x y)

  -- An element that is in a set stays the one that is stored.
  get-insert_old : (s : BTreeSet A) (x y z : A) → get s y ≡ some z → get (insert s x) y ≡ some z
  unfolding get insert
  get-insert_old [] x y z h = cc
  get-insert_old (w ∷ s) x y z h =
      ground (arith, get-insert_old s x y z, o.lt_trans y x w, o.gt_of_lt x w, o.cmp_congr y x w)

  pub get-extend_old :
      (s : BTreeSet A) (xs : List A) (y z : A) → get s y ≡ some z → get (extend s xs) y ≡ some z
  unfolding extend
  get-extend_old s [] y z h = h
  get-extend_old s (x ∷ xs) y z h = get-extend_old (insert s x) xs y z (get-insert_old s x y z h)

  pub has-all : (xs : List A) → All (λ x. has xs x ≡ true) xs
  has-all [] = tt
  has-all (x ∷ xs) = (rw (o.cmp_refl x), weaken xs (has-all xs))
    where
      weaken : (ys : List A) → All (λ y. has xs y ≡ true) ys → All (λ y. has (x ∷ xs) y ≡ true) ys
      weaken [] h = tt
      weaken (y ∷ ys) h = (ground arith, weaken ys h.1)

  pub extend_present :
      (s : BTreeSet A) (xs : List A) → All (λ x. contains s x ≡ true) xs → extend s xs ≡ s
  unfolding extend
  extend_present s [] h = refl
  extend_present s (x ∷ xs) h = rw (insert_present s x h.0) (extend_present s xs h.1)

  -- Extending twice by the same elements is extending once.
  pub extend-extend : (s : BTreeSet A) (xs : List A) → extend (extend s xs) xs ≡ extend s xs
  extend-extend s xs = extend_present (extend s xs) xs (present xs (has-all xs))
    where
      present :
          (ys : List A)
          → All (λ y. has xs y ≡ true) ys
          → All (λ y. contains (extend s xs) y ≡ true) ys
      present [] h = tt
      present (y ∷ ys) h = (ground (arith, contains-extend s xs y), present ys h.1)

  pub All-insert {κ} :
      (P : A → Type κ) (s : BTreeSet A) (x : A) → P x → All P s → All P (insert s x)
  unfolding insert
  All-insert P [] x p h = (p, tt)
  All-insert P (y ∷ s) x p h = ground (arith, All-insert P s x)

  pub All-replace {κ} :
      (P : A → Type κ) (s : BTreeSet A) (x : A) → P x → All P s → All P (replace s x)
  unfolding replace
  All-replace P [] x p h = (p, tt)
  All-replace P (y ∷ s) x p h = ground (arith, All-replace P s x)

  Above-trans : (x y : A) (s : BTreeSet A) → o.cmp x y ≡ lt → Above y s → Above x s
  Above-trans x y [] h a = tt
  Above-trans x y (z ∷ s) h a = (o.lt_trans x y z h a.0, Above-trans x y s h a.1)

  Above-congr : (x y : A) (s : BTreeSet A) → o.cmp x y ≡ eq → Above y s → Above x s
  Above-congr x y [] h a = tt
  Above-congr x y (z ∷ s) h a = (o.cmp_congr x y z h ∙ a.0, Above-congr x y s h a.1)

  pub insert-IsSorted : (s : BTreeSet A) (x : A) → IsSorted s → IsSorted (insert s x)
  unfolding insert
  insert-IsSorted [] x h = (tt, tt)
  insert-IsSorted (y ∷ s) x h = ground (
    arith,
    insert-IsSorted s x,
    Above-trans x y s,
    All-insert (λ z. o.cmp y z ≡ lt) s x,
    o.lt_of_gt x y,
  )

  replace-IsSorted : (s : BTreeSet A) (x : A) → IsSorted s → IsSorted (replace s x)
  unfolding replace
  replace-IsSorted [] x h = (tt, tt)
  replace-IsSorted (y ∷ s) x h = ground (
    arith,
    replace-IsSorted s x,
    Above-trans x y s,
    Above-congr x y s,
    All-replace (λ z. o.cmp y z ≡ lt) s x,
    o.lt_of_gt x y,
  )

  pub extend-IsSorted : (s : BTreeSet A) (xs : List A) → IsSorted s → IsSorted (extend s xs)
  unfolding extend
  extend-IsSorted s [] h = h
  extend-IsSorted s (x ∷ xs) h = extend-IsSorted (insert s x) xs (insert-IsSorted s x h)

  replace_all-IsSorted : (s : BTreeSet A) (xs : List A) → IsSorted s → IsSorted (replace_all s xs)
  unfolding replace_all
  replace_all-IsSorted s [] h = h
  replace_all-IsSorted s (x ∷ xs) h = replace_all-IsSorted (replace s x) xs (replace-IsSorted s x h)

  pub from_iter-IsSorted : (xs : List A) → IsSorted (from_iter xs)
  unfolding from_iter
  from_iter-IsSorted xs = replace_all-IsSorted [] xs tt
