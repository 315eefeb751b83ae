-- ===== src/Base/Fold.antt =====
-- Loops that convert each element before they apply it and end at the first that does not convert.
use mathlib.Core.Path.{◌≡◌, refl, sym, ap, ◌∙◌}
use mathlib.Core.List.{List, [], ◌∷◌, map}
use mathlib.Core.Logic.{inl, inr}
use tee.Base.Tests.{Result, ok, err, Result-cases, All, All-true}

-- What such a loop makes of its state.
unfoldable pub fold_until {ℓ} : {X Y E S : Type ℓ} → (X → Result Y E) → (Y → S → S) → List X → S → S
fold_until convert step [] s = s
fold_until convert step (x ∷ xs) s = elim (convert x) [
  | err e ↦ s
  | ok y ↦ fold_until convert step xs (step y s)
]

-- Each element before the first that does not convert is in a relation to the state.
unfoldable pub Settled {ℓ} :
    {X Y E S : Type ℓ} → (X → Result Y E) → (Y → S → Type ℓ) → List X → S → Type ℓ
Settled convert Absorbed [] s = Unit
Settled convert Absorbed (x ∷ xs) s = elim (convert x) [
  | err e ↦ Unit
  | ok y ↦ Absorbed y s × Settled convert Absorbed xs s
]

-- A predicate of states that the step of each element keeps is kept by the loop.
pub fold_until-keeps {ℓ κ μ} :
    {X Y E S : Type ℓ} (Q : X → Type μ) (P : S → Type κ) (convert : X → Result Y E)
    (step : Y → S → S)
    → ((x : X) (y : Y) (s : S) → Q x → convert x ≡ ok y → P s → P (step y s))
    → (xs : List X) (s : S) → All Q xs
    → P s
    → P (fold_until convert step xs s)
unfolding fold_until
fold_until-keeps Q P convert step keep [] s q p = p
fold_until-keeps Q P convert step keep (x ∷ xs) s q p = elim (Result-cases (convert x)) [
  | inl (y, e) ↦
      rw (e, fold_until)
        (fold_until-keeps Q P convert step keep xs (step y s) q.1 (keep x y s q.0 e p))
  | inr (_, e) ↦ rw (e, fold_until) p
]

-- The same where the elements do not matter.
pub fold_until-keeps_any {ℓ κ} :
    {X Y E S : Type ℓ} (P : S → Type κ) (convert : X → Result Y E) (step : Y → S → S)
    → ((x : X) (y : Y) (s : S) → convert x ≡ ok y → P s → P (step y s))
    → (xs : List X) (s : S) → P s
    → P (fold_until convert step xs s)
fold_until-keeps_any P convert step keep xs s =
    fold_until-keeps (λ _. Unit {0}) P convert step (λ x y t _. keep x y t) xs s (All-true xs)

module _ {ℓ} {X Y E S : Type ℓ} (convert : X → Result Y E) (step : Y → S → S)
    (Absorbed : Y → S → Type ℓ) (absorbed : (y : Y) (s : S) → Absorbed y s → step y s ≡ s)
    (absorbs : (x : X) (y : Y) (s : S) → convert x ≡ ok y → Absorbed y (step y s))
    (stays : (y z : Y) (s : S) → Absorbed y s → Absorbed y (step z s)) where
  -- The loop does nothing where its elements are absorbed.
  pub fold_until_absorbed :
      (xs : List X) (s : S) → Settled convert Absorbed xs s → fold_until convert step xs s ≡ s
  unfolding fold_until Settled
  fold_until_absorbed [] s h = refl
  fold_until_absorbed (x ∷ xs) s h = elim (Result-cases (convert x)) [
    | inl (y, e) ↦
        let h' = rw (e, Settled) at h in
        rw (e, fold_until, absorbed y s h'.0) (fold_until_absorbed xs s h'.1)
    | inr (_, e) ↦ rw (e, fold_until)
  ]

  fold_until-stays :
      (y : Y) (xs : List X) (s : S) → Absorbed y s → Absorbed y (fold_until convert step xs s)
  fold_until-stays y = fold_until-keeps_any (Absorbed y) convert step (λ _ z s _. stays y z s)

  fold_until-ok :
      {x : X} {y : Y} (xs : List X) (s : S)
      → convert x ≡ ok y
      → fold_until convert step (x ∷ xs) s ≡ fold_until convert step xs (step y s)
  unfolding fold_until
  fold_until-ok xs s e = rw (e, fold_until)

  Settled-ok :
      {x : X} {y : Y} (xs : List X) (s : S)
      → convert x ≡ ok y
      → Absorbed y s
      → Settled convert Absorbed xs s
      → Settled convert Absorbed (x ∷ xs) s
  unfolding Settled
  Settled-ok xs s e a h = rw (e, Settled) (a, h)

  Settled-err :
      {x : X} {f : E} (xs : List X) (s : S)
      → convert x ≡ err f
      → Settled convert Absorbed (x ∷ xs) s
  unfolding Settled
  Settled-err xs s e = rw (e, Settled) tt

  pub fold_until-Settled :
      (xs : List X) (s : S) → Settled convert Absorbed xs (fold_until convert step xs s)
  fold_until-Settled [] s = unfold Settled in tt
  fold_until-Settled (x ∷ xs) s = elim (Result-cases (convert x)) [
    | inl (y, e) ↦ rw (fold_until-ok xs s e) (
        Settled-ok xs _ e (fold_until-stays y xs (step y s) (absorbs x y s e))
          (fold_until-Settled xs (step y s)))
    | inr (_, e) ↦ Settled-err xs _ e
  ]

  -- Running the loop again does nothing.
  pub fold_until_twice :
      (xs : List X) (s : S)
      → fold_until convert step xs (fold_until convert step xs s) ≡ fold_until convert step xs s
  fold_until_twice xs s = fold_until_absorbed xs _ (fold_until-Settled xs s)

-- Elements stay absorbed through a step that keeps each of them absorbed.
pub Settled-stays {ℓ} :
    {X Y E S : Type ℓ} (convert : X → Result Y E) (Absorbed : Y → S → Type ℓ) (step : S → S)
    → ((y : Y) (s : S) → Absorbed y s → Absorbed y (step s))
    → (xs : List X) (s : S) → Settled convert Absorbed xs s
    → Settled convert Absorbed xs (step s)
unfolding Settled
Settled-stays convert Absorbed step stays [] s h = tt
Settled-stays convert Absorbed step stays (x ∷ xs) s h = elim (Result-cases (convert x)) [
  | inl (y, e) ↦
      let h' = rw (e, Settled) at h in
      rw (e, Settled) (stays y s h'.0, Settled-stays convert Absorbed step stays xs s h'.1)
  | inr (_, e) ↦ rw (e, Settled) tt
]

-- The loop with nothing to convert.
unfoldable pub fold_all {ℓ κ} : {Y : Type ℓ} {S : Type κ} → (Y → S → S) → List Y → S → S
fold_all step [] s = s
fold_all step (y ∷ ys) s = fold_all step ys (step y s)

-- Where every element is the image of what it converts to, nothing is lost on the way.
pub fold_until-map {ℓ} :
    {X Y E S : Type ℓ} (convert : X → Result Y E) (step : Y → S → S) (f : Y → X) (ys : List Y)
    (s : S)
    → All (λ y. convert (f y) ≡ ok y) ys
    → fold_until convert step (map f ys) s ≡ fold_all step ys s
unfolding fold_until fold_all
fold_until-map convert step f [] s h = refl
fold_until-map convert step f (y ∷ ys) s h =
    rw (h.0, fold_until) (fold_until-map convert step f ys (step y s) h.1)

pub fold_all_idle {ℓ κ} :
    {Y : Type ℓ} {S : Type κ} (step : Y → S → S) (ys : List Y) (s : S)
    → All (λ y. step y s ≡ s) ys
    → fold_all step ys s ≡ s
unfolding fold_all
fold_all_idle step [] s h = refl
fold_all_idle step (y ∷ ys) s h = rw h.0 (fold_all_idle step ys s h.1)

-- Steps that may be swapped in pairs may be done in either order.
module _ {ℓ κ} {Y : Type ℓ} {S : Type κ} (step : Y → S → S) where
  abbrev pub Swaps : Y → Y → Type κ
  Swaps y z = (s : S) → step y (step z s) ≡ step z (step y s)

  fold_all-step :
      (y : Y) (zs : List Y) (s : S)
      → All (Swaps y) zs
      → fold_all step zs (step y s) ≡ step y (fold_all step zs s)
  unfolding fold_all
  fold_all-step y [] s h = refl
  fold_all-step y (z ∷ zs) s h =
      ap (fold_all step zs) (sym (h.0 s)) ∙ fold_all-step y zs (step z s) h.1

  pub fold_all_comm :
      (ys zs : List Y) (s : S)
      → All (λ y. All (Swaps y) zs) ys
      → fold_all step ys (fold_all step zs s) ≡ fold_all step zs (fold_all step ys s)
  unfolding fold_all
  fold_all_comm [] zs s h = refl
  fold_all_comm (y ∷ ys) zs s h =
      ap (fold_all step ys) (sym (fold_all-step y zs s h.0)) ∙ fold_all_comm ys zs (step y s) h.1
