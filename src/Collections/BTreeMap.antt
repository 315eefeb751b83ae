-- ===== src/Collections/BTreeMap.antt =====
-- `std::collections::BTreeMap`: the entries in increasing order of their keys.
pub mod Laws
pub mod Pointwise
use Prim.Native.Nat.Ordering.{lt, eq, gt}
use tee.Base.{
  ◌≡◌, Bool, Option, none, some, List, [], ◌∷◌, arith, KeyOrd, All, is_some, if◌then◌else◌,
}
use tee.Collections.BTreeSet.{is_eq}

abbrev pub BTreeMap {ℓ κ} : Type ℓ → Type κ → Type (ℓ ⊔ κ)
BTreeMap K V = List (K × V)

module _ {ℓ κ} {K : Type ℓ} {V : Type κ} ⦃o : KeyOrd K⦄ where
  -- `BTreeMap::get`, and the value that `get_mut` gives access to.
  unfoldable pub get : BTreeMap K V → K → Option V
  get [] k = none
  get ((j, v) ∷ m) k = elim (o.cmp k j) [ lt ↦ none | eq ↦ some v | gt ↦ get m k ]

  abbrev pub contains_key : BTreeMap K V → K → Bool
  contains_key m k = is_some (get m k)

  -- `BTreeMap::insert`. A write through `get_mut` is an insert under the key that was found.
  unfoldable pub insert : BTreeMap K V → K → V → BTreeMap K V
  insert [] k v = (k, v) ∷ []
  insert ((j, w) ∷ m) k v = elim (o.cmp k j) [
    | lt ↦ (k, v) ∷ (j, w) ∷ m
    | eq ↦ (k, v) ∷ m
    | gt ↦ (j, w) ∷ insert m k v
  ]

  abbrev pub Above : K → BTreeMap K V → Type 0
  Above k = All λ e. o.cmp k e.0 ≡ lt

  abbrev pub IsSorted : BTreeMap K V → Type 0
  IsSorted [] = Unit
  IsSorted (e ∷ m) = Above e.0 m × IsSorted m

  pub get-insert :
      (m : BTreeMap K V) (k : K) (v : V) (j : K)
      → get (insert m k v) j ≡ (if is_eq (o.cmp j k) then some v else get m j)
  unfolding get insert
  get-insert [] k v j = ground arith
  get-insert ((i, w) ∷ m) k v j = ground (
    arith,
    get-insert m k v j,
    o.lt_trans j k i,
    o.gt_of_lt k i,
    o.cmp_congr j k i,
    o.eq_of_cmp k i,
  )

  -- Writing the value that is there changes nothing.
  pub insert_same : (m : BTreeMap K V) (k : K) (v : V) → get m k ≡ some v → insert m k v ≡ m
  unfolding get insert
  insert_same [] k v h = cc
  insert_same ((i, w) ∷ m) k v h = ground (arith, insert_same m k v, o.eq_of_cmp k i)
