-- ===== src/Examples/Tests/Run.antt =====
-- What the tests of the source are written with: `assert!` and `assert_eq!`, and tests that call a
-- store, which panic where an assertion or an `unwrap` fails.
use Prim.Native.Nat.Ordering.{lt}
use tee.Base.{
  ℕ, zero, suc, Bool, true, false, ◌&&◌, Option, none, some, List, [], ◌∷◌, Result, ok, err, String,
  Ordering, is_some, string_eq,
}
use tee.Store.State.{InnerState, Outcome, new}
use tee.Examples.Model.{lattices}

-- `assert!(a < b)` and `assert_eq!` of two lists.
abbrev pub is_lt : Ordering → Bool
is_lt lt = true
is_lt _ = false

abbrev pub list_eq {ℓ} : {A : Type ℓ} → (A → A → Bool) → List A → List A → Bool
list_eq beq [] [] = true
list_eq beq [] (_ ∷ _) = false
list_eq beq (_ ∷ _) [] = false
list_eq beq (x ∷ xs) (y ∷ ys) = beq x y && list_eq beq xs ys

abbrev pub strings_eq : List String → List String → Bool
strings_eq = list_eq string_eq.beq

-- All the assertions of all the tests of a file.
abbrev pub all_hold : List Bool → Bool
all_hold [] = true
all_hold (b ∷ bs) = b && all_hold bs

-- A test with a store: it ends with a value and the store, or it panics.
abbrev pub Test : Type 0 → Type 0
Test A = InnerState → Option (A × InnerState)

infixl 5 ◌>>=◌ ◌>>◌
abbrev pub ◌>>=◌ : {A B : Type 0} → Test A → (A → Test B) → Test B
◌>>=◌ m f s = elim (m s) [ none ↦ none | some (a, t) ↦ f a t ]

abbrev pub ◌>>◌ : {A B : Type 0} → Test A → Test B → Test B
m >> k = m >>= λ _. k

abbrev pub assert : Bool → Test (Unit {0})
assert true s = some (tt, s)
assert false s = none

-- `store.method(..).await.unwrap()` for a method that writes, and for one that reads.
abbrev pub writes : {A : Type 0} → (InnerState → Outcome A) → Test A
writes method s = let (t, result) = method s in elim result [ ok a ↦ some (a, t) | err _ ↦ none ]

abbrev pub reads : {A E : Type 0} → (InnerState → Result A E) → Test A
reads method s = elim (method s) [ ok a ↦ some (a, s) | err _ ↦ none ]

-- Without the `unwrap`.
abbrev pub asks : {A E : Type 0} → (InnerState → Result A E) → Test (Result A E)
asks method s = some (method s, s)

-- `Option::unwrap`, and `xs[n]`, which panics beyond the end.
abbrev pub unwrap : {A : Type 0} → Option A → Test A
unwrap none s = none
unwrap (some a) s = some (a, s)

abbrev pub at : {A : Type 0} → List A → ℕ → Test A
at [] n s = none
at (x ∷ xs) zero s = some (x, s)
at (x ∷ xs) (suc n) s = at xs n s

-- A test starts with `InMemoryStore::new()`.
abbrev pub passes : Test (Unit {0}) → Bool
passes t = is_some (t new)
