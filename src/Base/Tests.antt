-- ===== src/Base/Tests.antt =====
-- The conditional, tests on numbers, options and lists, results, and predicates on lists.
use Prim.Native.Nat.{ℕ, suc, ◌+◌, compare, Ordering}
use native.Mathlib.Omega.{arith}
use mathlib.Core.Path.{◌≡◌, refl}
use mathlib.Core.Logic.{◌⊎◌, inl, inr}
use mathlib.Core.Bool.{Bool, true, false, ◌&&◌}
use mathlib.Core.Option.{Option, none, some}
use mathlib.Core.List.{List, [], ◌∷◌, ◌++◌, map}

abbrev pub ltb : ℕ → ℕ → Bool
ltb a b = elim (compare a b) [ Ordering.lt ↦ true | _ ↦ false ]

infix 50 ◌==◌
abbrev pub ◌==◌ : ℕ → ℕ → Bool
a == b = elim (compare a b) [ Ordering.eq ↦ true | _ ↦ false ]

infix 1 if◌then◌else◌
abbrev pub if◌then◌else◌ {ℓ} : {A : Type ℓ} → Bool → A → A → A
if true then x else y = x
if false then x else y = y

pub Bool-cases : (b : Bool) → (b ≡ true) ⊎ (b ≡ false)
Bool-cases true = inl refl
Bool-cases false = inr refl

pub Option-cases {ℓ} : {A : Type ℓ} (o : Option A) → (o ≡ none) ⊎ ((a : A) × (o ≡ some a))
Option-cases none = inl refl
Option-cases (some a) = inr (a, refl)

abbrev pub is_some {ℓ} : {A : Type ℓ} → Option A → Bool
is_some none = false
is_some (some _) = true

abbrev pub is_none {ℓ} : {A : Type ℓ} → Option A → Bool
is_none none = true
is_none (some _) = false

-- `Option::unwrap_or`.
abbrev pub unwrap_or {ℓ} : {A : Type ℓ} → Option A → A → A
unwrap_or none d = d
unwrap_or (some a) d = a

-- `Vec::is_empty` and `Vec::push`.
abbrev pub is_nil {ℓ} : {A : Type ℓ} → List A → Bool
is_nil [] = true
is_nil (_ ∷ _) = false

abbrev pub push {ℓ} : {A : Type ℓ} → List A → A → List A
push xs x = xs ++ (x ∷ [])

-- `Result<A, E>`.
pub data Result {ℓ κ} (A : Type ℓ) (E : Type κ) : Type (ℓ ⊔ κ) where
  ok : A → Result A E
  err : E → Result A E

infixl 5 ◌>>=◌ ◌>>◌
abbrev pub ◌>>=◌ {ℓ κ μ} :
    {A : Type ℓ} {B : Type κ} {E : Type μ} → Result A E → (A → Result B E) → Result B E
ok a >>= f = f a
err e >>= f = err e

abbrev pub ◌>>◌ {ℓ μ} : {B : Type ℓ} {E : Type μ} → Result (Unit {0}) E → Result B E → Result B E
m >> k = m >>= λ _. k

-- `Result::is_ok` and `is_err`.
abbrev pub is_ok {ℓ κ} : {A : Type ℓ} {E : Type κ} → Result A E → Bool
is_ok (ok _) = true
is_ok (err _) = false

abbrev pub is_err {ℓ κ} : {A : Type ℓ} {E : Type κ} → Result A E → Bool
is_err (ok _) = false
is_err (err _) = true

-- `Result::map_err`.
abbrev pub map_err {ℓ κ μ} :
    {A : Type ℓ} {E : Type κ} {F : Type μ} → (E → F) → Result A E → Result A F
map_err f (ok a) = ok a
map_err f (err e) = err (f e)

-- `if failed { return Err(e) }`.
abbrev pub refuse {ℓ} : {E : Type ℓ} → Bool → E → Result (Unit {0}) E
refuse true e = err e
refuse false e = ok tt

pub Result-cases {ℓ κ} :
    {A : Type ℓ} {E : Type κ} (r : Result A E) → ((a : A) × (r ≡ ok a)) ⊎ ((e : E) × (r ≡ err e))
Result-cases (ok a) = inl (a, refl)
Result-cases (err e) = inr (e, refl)

-- A predicate holds of every element.
abbrev pub All {ℓ κ} : {A : Type ℓ} → (A → Type κ) → List A → Type κ
All P [] = Unit
All P (x ∷ xs) = P x × All P xs

pub All-append {ℓ κ} :
    {A : Type ℓ} (P : A → Type κ) (xs ys : List A) → All P xs → All P ys → All P (xs ++ ys)
All-append P [] ys hx hy = hy
All-append P (x ∷ xs) ys hx hy = (hx.0, All-append P xs ys hx.1 hy)

pub All-imp {ℓ κ μ} :
    {A : Type ℓ} {P : A → Type κ} {Q : A → Type μ}
    → ((x : A) → P x → Q x)
    → (xs : List A) → All P xs
    → All Q xs
All-imp f [] h = tt
All-imp f (x ∷ xs) h = (f x h.0, All-imp f xs h.1)

-- `Iterator::filter`.
unfoldable pub filter {ℓ} : {A : Type ℓ} → (A → Bool) → List A → List A
filter p [] = []
filter p (x ∷ xs) = let rest = filter p xs in if p x then x ∷ rest else rest

pub filter-nil {ℓ} : {A : Type ℓ} (p : A → Bool) → filter p [] ≡ []
unfolding filter
filter-nil p = refl

pub filter-cons {ℓ} :
    {A : Type ℓ} (p : A → Bool) (x : A) (xs : List A)
    → filter p (x ∷ xs) ≡ (if p x then x ∷ filter p xs else filter p xs)
unfolding filter
filter-cons p x xs = refl

-- A filter that gets stricter by a test of the result.
pub filter-map-filter {ℓ} :
    {A B : Type ℓ} (f : A → B) (p q : A → Bool) (r : B → Bool)
    → ((a : A) → q a ≡ p a && r (f a))
    → (xs : List A) → map f (filter q xs) ≡ filter r (map f (filter p xs))
unfolding filter
filter-map-filter f p q r h [] = refl
filter-map-filter f p q r h (x ∷ xs) = ground (arith, h x, filter-map-filter f p q r h xs)

pub filter_all {ℓ} :
    {A : Type ℓ} (p : A → Bool) (xs : List A) → ((a : A) → p a ≡ true) → filter p xs ≡ xs
unfolding filter
filter_all p [] h = refl
filter_all p (x ∷ xs) h = ground (arith, h x, filter_all p xs h)

pub All-true {ℓ} : {A : Type ℓ} (xs : List A) → All (λ _. Unit {0}) xs
All-true [] = tt
All-true (x ∷ xs) = (tt, All-true xs)

pub All-map {ℓ κ μ} :
    {A : Type ℓ} {B : Type κ} (P : B → Type μ) (f : A → B) (xs : List A)
    → All (λ x. P (f x)) xs
    → All P (map f xs)
All-map P f [] h = tt
All-map P f (x ∷ xs) h = (h.0, All-map P f xs h.1)

module _ {ℓ} {A : Type ℓ} where
  abbrev pub length : List A → ℕ
  length [] = 0
  length (x ∷ xs) = suc (length xs)

  pub length-push : (xs : List A) (x : A) → length (push xs x) ≡ length xs + 1
  length-push [] x = omega arith
  length-push (y ∷ xs) x = omega (arith, length-push xs x)
