-- ===== src/Base/Int.antt =====
-- The machine integers `i32` and `i64` by the integer that they stand for, under the library's
-- names but over the native numbers, with the equality test, the cast from `u64` and `Display`.
use Prim.Native.Nat.{ℕ, zero, suc, ◌<◌, ◌≤◌, ◌-◌, ◌/◌, ◌%◌, ◌^◌}
use Prim.Native.String.{String, ◌++◌}
use mathlib.Core.Path.{◌≡◌, refl, ap}
use mathlib.Core.Logic.{◌↔◌, inl, inr}
use mathlib.Core.Bool.{Bool, true, false}
use native.Mathlib.Omega.{arith}
use tee.Base.Tests.{Bool-cases, ltb, ◌==◌, if◌then◌else◌}

-- `negsuc n` is -(n + 1).
pub data ℤ : Type 0 where
  pos : ℕ → ℤ
  negsuc : ℕ → ℤ

abbrev pub int_eq : ℤ → ℤ → Bool
int_eq (pos a) (pos b) = a == b
int_eq (pos a) (negsuc b) = false
int_eq (negsuc a) (pos b) = false
int_eq (negsuc a) (negsuc b) = a == b

pub int_eq_iff : (a b : ℤ) → (int_eq a b ≡ true) ↔ (a ≡ b)
int_eq_iff (pos a) (pos b) = (λ h. ground arith, λ h. ground arith)
int_eq_iff (pos a) (negsuc b) = (λ h. ground arith, λ h. ground arith)
int_eq_iff (negsuc a) (pos b) = (λ h. ground arith, λ h. ground arith)
int_eq_iff (negsuc a) (negsuc b) = (λ h. ground arith, λ h. ground arith)

-- `n as i64` of a `u64`: the bit pattern is kept.
unfoldable pub as_i64 : ℕ → ℤ
as_i64 n = let w = n % 2 ^ 64 in if ltb w (2 ^ 63) then pos w else negsuc (2 ^ 64 - 1 - w)

-- `n as i32` of a `u32`.
unfoldable pub as_i32 : ℕ → ℤ
as_i32 n = let w = n % 2 ^ 32 in if ltb w (2 ^ 31) then pos w else negsuc (2 ^ 32 - 1 - w)

abbrev digit : ℕ → String
digit n =
    if n == 0
    then "0"
    else if n == 1
    then "1"
    else if n == 2
    then "2"
    else if n == 3
    then "3"
    else if n == 4
    then "4"
    else if n == 5
    then "5"
    else if n == 6
    then "6"
    else if n == 7
    then "7"
    else if n == 8
    then "8"
    else "9"

-- Decimal digits. The fuel `suc n` is more than the number of digits of `n`.
show_digits : ℕ → ℕ → String
show_digits zero n = ""
show_digits (suc fuel) n =
    let rest = show_digits fuel (n / 10) in if ltb n 10 then digit n else rest ++ digit (n % 10)

-- Any fuel above the number prints the same digits.
show_digits_enough : (f g n : ℕ) → n < f → n < g → show_digits f n ≡ show_digits g n
unfolding show_digits
show_digits_enough zero g n h k = absurd (omega arith)
show_digits_enough (suc f) zero n h k = absurd (omega arith)
show_digits_enough (suc f) (suc g) n h k = elim (Bool-cases (ltb n 10)) [
  | inl c ↦ rw c
  | inr c ↦
      let big : 10 ≤ n = ground arith in
      let a : n / 10 < f = omega arith in
      let b : n / 10 < g = omega arith in
      rw c (ap (λ rest. rest ++ digit (n % 10)) (show_digits_enough f g (n / 10) a b))
]

-- `Display` of an `i32`.
unfoldable pub show_int : ℤ → String
unfolding show_digits
show_int (pos n) = show_digits (suc n) n
show_int (negsuc n) = "-" ++ show_digits (suc (suc n)) (suc n)

show_int_tests :
    (show_int (pos 0) ≡ "0") × (show_int (pos 120) ≡ "120") × (show_int (negsuc 9) ≡ "-10")
unfolding show_int
show_int_tests = (refl, refl, refl)
