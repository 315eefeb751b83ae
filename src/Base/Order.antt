-- ===== src/Base/Order.antt =====
-- The traits `Eq` and `Ord` with the laws that their documentation asks for.
use Prim.Native.Nat.{Ordering, compare}
use Prim.Native.Nat.Ordering.{lt, eq, gt}
use mathlib.Core.Path.{◌≡◌, refl}
use mathlib.Core.Logic.{◌↔◌, ◌⊎◌, inl, inr}
use mathlib.Core.Bool.{Bool, true}
use native.Mathlib.Omega.{arith}

-- `T: Eq` for a type whose `==` is equality of the values.
pub record Eq {ℓ} (A : Type ℓ) : Type ℓ where
  pub beq : A → A → Bool
  pub beq_iff : (a b : A) → (beq a b ≡ true) ↔ (a ≡ b)

-- `T: Ord`. `cmp` may answer `Equal` for values that differ, as it does for provenance.
pub record IsLawful {ℓ} {A : Type ℓ} (cmp : A → A → Ordering) : Type ℓ where
  pub cmp_refl : (a : A) → cmp a a ≡ eq
  pub lt_of_gt : (a b : A) → cmp a b ≡ gt → cmp b a ≡ lt
  pub gt_of_lt : (a b : A) → cmp a b ≡ lt → cmp b a ≡ gt
  pub lt_trans : (a b c : A) → cmp a b ≡ lt → cmp b c ≡ lt → cmp a c ≡ lt
  pub cmp_congr : (a b c : A) → cmp a b ≡ eq → cmp a c ≡ cmp b c

pub record Ord {ℓ} (A : Type ℓ) : Type ℓ where
  pub cmp : A → A → Ordering
  pub lawful : IsLawful cmp
  pub open lawful use *

-- An order whose `Equal` is equality of the values: what the keys of a map have.
pub record KeyOrd {ℓ} (A : Type ℓ) : Type ℓ where
  pub ord : Ord A
  pub open ord use *
  pub eq_of_cmp : (a b : A) → cmp a b ≡ eq → a ≡ b

abbrev pub then : Ordering → Ordering → Ordering
then eq second = second
then first _ = first

module _ {ℓ} {A : Type ℓ} ⦃o : Ord A⦄ where
  eq_symm : (a b : A) → o.cmp a b ≡ eq → o.cmp b a ≡ eq
  eq_symm a b h = rw (← o.cmp_congr a b a h) (o.cmp_refl a)

  pub cmp_congr_right : (a b c : A) → o.cmp a b ≡ eq → o.cmp c a ≡ o.cmp c b
  cmp_congr_right a b c h = ground (
    arith,
    o.cmp_congr a b c h,
    o.lt_of_gt c a,
    o.lt_of_gt c b,
    o.gt_of_lt c a,
    o.gt_of_lt c b,
    eq_symm c a,
    eq_symm c b,
  )

module _ {ℓ κ} {A : Type ℓ} {B : Type κ} ⦃a : KeyOrd A⦄ ⦃b : KeyOrd B⦄ where
  -- `derive(Ord)` and tuples: lexicographic.
  abbrev pub lex : A × B → A × B → Ordering
  lex x y = then (a.cmp x.0 y.0) (b.cmp x.1 y.1)

  pub lex-eq : (x y : A × B) → lex x y ≡ eq → x ≡ y
  lex-eq x y h = ground (arith, a.eq_of_cmp x.0 y.0, b.eq_of_cmp x.1 y.1)

  pub lex-IsLawful : IsLawful {A = A × B} lex
  lex-IsLawful = record {
    cmp_refl = λ x. simp (a.cmp_refl, b.cmp_refl);
    lt_of_gt = λ x y h.
        ground (arith, a.eq_of_cmp x.0 y.0, a.lt_of_gt x.0 y.0, b.lt_of_gt x.1 y.1, a.cmp_refl x.0);
    gt_of_lt = λ x y h.
        ground (arith, a.eq_of_cmp x.0 y.0, a.gt_of_lt x.0 y.0, b.gt_of_lt x.1 y.1, a.cmp_refl x.0);
    lt_trans =
        λ x y z. grind (arith, a.eq_of_cmp x.0 y.0, a.eq_of_cmp y.0 z.0, a.lt_trans, b.lt_trans);
    cmp_congr = λ x y z h. rw (lex-eq x y h);
  }

  instance unfoldable pub pair_key : KeyOrd (A × B)
  pair_key = record { ord = record { cmp = lex; lawful = lex-IsLawful }; eq_of_cmp = lex-eq }

pub Ordering-cases : (c : Ordering) → (c ≡ lt) ⊎ (c ≡ eq) ⊎ (c ≡ gt)
Ordering-cases lt = inl refl
Ordering-cases eq = inr (inl refl)
Ordering-cases gt = inr (inr refl)

-- An order on the images of a function is an order on its arguments.
pub on-IsLawful {ℓ κ} :
    {A : Type ℓ} {B : Type κ} (f : A → B) (cmp : B → B → Ordering)
    → IsLawful cmp
    → IsLawful (λ (x y : A). cmp (f x) (f y))
on-IsLawful f cmp h = record {
  cmp_refl = λ x. h.cmp_refl (f x);
  lt_of_gt = λ x y. h.lt_of_gt (f x) (f y);
  gt_of_lt = λ x y. h.gt_of_lt (f x) (f y);
  lt_trans = λ x y z. h.lt_trans (f x) (f y) (f z);
  cmp_congr = λ x y z. h.cmp_congr (f x) (f y) (f z);
}

pub compare-IsLawful : IsLawful compare
compare-IsLawful = ground arith
