-- ===== src/Collections/BTreeSet.antt =====
-- `std::collections::BTreeSet`: the elements in increasing order, one for each class of equal
-- elements. Elements that compare equal may differ, so it matters which one a set keeps.
pub mod Laws
pub mod Elements
pub mod Canonical
pub mod Joins
use Prim.Native.Nat.Ordering.{lt, eq, gt}
use tee.Base.{
  ◌≡◌, Bool, true, false, ◌||◌, Option, none, some, List, [], ◌∷◌, arith, Ordering, Ord, All,
  is_some,
}

abbrev pub BTreeSet {ℓ} : Type ℓ → Type ℓ
BTreeSet A = List A

abbrev pub is_eq : Ordering → Bool
is_eq eq = true
is_eq _ = false

module _ {ℓ} {A : Type ℓ} ⦃o : Ord A⦄ where
  -- `BTreeSet::get`: the element of the set that is equal to the one given.
  unfoldable pub get : BTreeSet A → A → Option A
  get [] x = none
  get (y ∷ s) x = elim (o.cmp x y) [ lt ↦ none | eq ↦ some y | gt ↦ get s x ]

  abbrev pub contains : BTreeSet A → A → Bool
  contains s x = is_some (get s x)

  -- `BTreeSet::insert` keeps an equal element that is there already.
  unfoldable pub insert : BTreeSet A → A → BTreeSet A
  insert [] x = x ∷ []
  insert (y ∷ s) x = elim (o.cmp x y) [ lt ↦ x ∷ y ∷ s | eq ↦ y ∷ s | gt ↦ y ∷ insert s x ]

  -- `BTreeSet::replace` puts the new element in the place of an equal one.
  unfoldable pub replace : BTreeSet A → A → BTreeSet A
  replace [] x = x ∷ []
  replace (y ∷ s) x = elim (o.cmp x y) [ lt ↦ x ∷ y ∷ s | eq ↦ x ∷ s | gt ↦ y ∷ replace s x ]

  -- `Extend::extend` inserts one element after the other.
  unfoldable pub extend : BTreeSet A → List A → BTreeSet A
  extend s [] = s
  extend s (x ∷ xs) = extend (insert s x) xs

  -- `FromIterator`: a stable sort, after which the last of several equal elements is kept.
  unfoldable pub replace_all : BTreeSet A → List A → BTreeSet A
  replace_all s [] = s
  replace_all s (x ∷ xs) = replace_all (replace s x) xs

  unfoldable pub from_iter : List A → BTreeSet A
  unfolding replace_all
  from_iter xs = replace_all [] xs

  abbrev pub Above : A → BTreeSet A → Type 0
  Above x = All λ y. o.cmp x y ≡ lt

  abbrev pub IsSorted : BTreeSet A → Type 0
  IsSorted [] = Unit
  IsSorted (x ∷ s) = Above x s × IsSorted s

  pub contains-insert :
      (s : BTreeSet A) (x y : A) → contains (insert s x) y ≡ is_eq (o.cmp y x) || contains s y
  unfolding get insert
  contains-insert [] x y = ground arith
  contains-insert (z ∷ s) x y =
      ground (arith, contains-insert s x y, o.lt_trans y x z, o.gt_of_lt x z, o.cmp_congr y x z)

  -- Inserting an element that is there changes nothing.
  pub insert_present : (s : BTreeSet A) (x : A) → contains s x ≡ true → insert s x ≡ s
  unfolding get insert
  insert_present [] x h = cc
  insert_present (z ∷ s) x h = ground (arith, insert_present s x)
