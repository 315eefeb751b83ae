-- ===== src/Lattices.antt =====
-- The types of the crate `lattices` that the domain types are built from, as a parameter of the
-- development: `Conflict<T>`, `Min<bool>`, `SetUnionBTreeSet<T>` and `MapUnionBTreeMap<K, V>`, each with its constructor,
-- `as_reveal_ref` and `merge`. The laws are what the crate documents and the program relies on:
-- a value is what it reveals, and `merge` is the lattice join, which reports whether it changed
-- its left argument.
use tee.Base.{
  ◌≡◌, ◌≢◌, Bool, true, false, ◌&&◌, Option, none, some, [], All, Eq, Ord, KeyOrd, is_none,
  if◌then◌else◌,
}
use tee.Collections.BTreeMap
use tee.Collections.BTreeMap.{BTreeMap, get}
use tee.Collections.BTreeSet.{BTreeSet, extend}

-- The join of two revealed `Conflict` values: they agree, or there is a conflict.
abbrev pub agree : {T : Type 0} ⦃e : Eq T⦄ → Option T → Option T → Option T
agree none y = none
agree (some a) none = none
agree ⦃e⦄ (some a) (some b) = if e.beq a b then some a else none

-- `Merge` and `IsBot` of the values of a map.
pub record Merge (V : Type 0) : Type 0 where
  pub merge : V → V → V × Bool
  pub is_bot : V → Bool

-- The join of what two maps hold under a key, where a key that a map lacks adds nothing.
abbrev pub join : {V : Type 0} ⦃m : Merge V⦄ → Option V → Option V → Option V
join none y = y
join (some a) none = some a
join ⦃m⦄ (some a) (some b) = some (m.merge a b).0

pub record Lattices : Type 1 where
  pub Conflict : Type 0 → Type 0
  pub conflict_new_from : {T : Type 0} → T → Conflict T
  pub conflict_is_top : {T : Type 0} → Conflict T → Bool
  pub conflict_reveal : {T : Type 0} → Conflict T → Option T
  pub conflict_merge : {T : Type 0} ⦃e : Eq T⦄ → Conflict T → Conflict T → Conflict T × Bool
  pub conflict_ext : {T : Type 0} (c d : Conflict T) → conflict_reveal c ≡ conflict_reveal d → c ≡ d
  pub conflict_reveal-new : {T : Type 0} (a : T) → conflict_reveal (conflict_new_from a) ≡ some a
  pub conflict_top : {T : Type 0} (c : Conflict T) → conflict_is_top c ≡ is_none (conflict_reveal c)
  pub conflict_reveal-merge :
      {T : Type 0} ⦃e : Eq T⦄ (c d : Conflict T)
      → conflict_reveal (conflict_merge c d).0 ≡ agree (conflict_reveal c) (conflict_reveal d)
  pub conflict_unchanged :
      {T : Type 0} ⦃e : Eq T⦄ (c d : Conflict T)
      → (conflict_merge c d).1 ≡ false
      → (conflict_merge c d).0 ≡ c
  pub conflict_changed :
      {T : Type 0} ⦃e : Eq T⦄ (c d : Conflict T)
      → (conflict_merge c d).1 ≡ true
      → (conflict_merge c d).0 ≢ c
  pub Min : Type 0 → Type 0
  pub min_new : {T : Type 0} → T → Min T
  pub min_reveal : {T : Type 0} → Min T → T
  pub min_merge : Min Bool → Min Bool → Min Bool × Bool
  pub min_ext : {T : Type 0} (c d : Min T) → min_reveal c ≡ min_reveal d → c ≡ d
  pub min_reveal-new : {T : Type 0} (a : T) → min_reveal (min_new a) ≡ a
  pub min_reveal-merge :
      (c d : Min Bool) → min_reveal (min_merge c d).0 ≡ min_reveal c && min_reveal d
  pub min_unchanged : (c d : Min Bool) → (min_merge c d).1 ≡ false → (min_merge c d).0 ≡ c
  pub min_changed : (c d : Min Bool) → (min_merge c d).1 ≡ true → (min_merge c d).0 ≢ c
  pub SetUnion : Type 0 → Type 0
  pub set_new : {T : Type 0} → BTreeSet T → SetUnion T
  pub set_reveal : {T : Type 0} → SetUnion T → BTreeSet T
  pub set_merge : {T : Type 0} ⦃o : Ord T⦄ → SetUnion T → SetUnion T → SetUnion T × Bool
  pub set_ext : {T : Type 0} (c d : SetUnion T) → set_reveal c ≡ set_reveal d → c ≡ d
  pub set_reveal-new : {T : Type 0} (s : BTreeSet T) → set_reveal (set_new s) ≡ s
  pub set_reveal-merge :
      {T : Type 0} ⦃o : Ord T⦄ (c d : SetUnion T)
      → set_reveal (set_merge c d).0 ≡ extend (set_reveal c) (set_reveal d)
  pub set_unchanged :
      {T : Type 0} ⦃o : Ord T⦄ (c d : SetUnion T)
      → (set_merge c d).1 ≡ false
      → (set_merge c d).0 ≡ c
  pub set_changed :
      {T : Type 0} ⦃o : Ord T⦄ (c d : SetUnion T) → (set_merge c d).1 ≡ true → (set_merge c d).0 ≢ c
  pub MapUnion : Type 0 → Type 0 → Type 0
  pub map_default : {K V : Type 0} → MapUnion K V
  pub map_new : {K V : Type 0} → BTreeMap K V → MapUnion K V
  pub map_reveal : {K V : Type 0} → MapUnion K V → BTreeMap K V
  pub map_merge :
      {K V : Type 0} ⦃o : KeyOrd K⦄ ⦃m : Merge V⦄
      → MapUnion K V
      → MapUnion K V
      → MapUnion K V × Bool
  pub map_reveal-default : {K V : Type 0} → map_reveal (map_default {K = K} {V = V}) ≡ []
  pub map_reveal-new : {K V : Type 0} (b : BTreeMap K V) → map_reveal (map_new b) ≡ b
  pub map_reveal-merge :
      {K V : Type 0} ⦃o : KeyOrd K⦄ ⦃m : Merge V⦄ (c d : MapUnion K V) (k : K)
      → BTreeMap.IsSorted (map_reveal c)
      → BTreeMap.IsSorted (map_reveal d)
      → All (λ e. m.is_bot e.1 ≡ false) (map_reveal d)
      → get (map_reveal (map_merge c d).0) k ≡ join (get (map_reveal c) k) (get (map_reveal d) k)
