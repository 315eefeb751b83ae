-- ===== src/Base/Text.antt =====
-- `String`: emptiness, equality and the order, which is that of the code points, and so that of
-- the bytes of UTF-8.
use Prim.Native.Nat.{compare as compare_ℕ, Ordering}
use Prim.Native.Nat.Ordering.{lt, gt}
use Prim.Native.Char.{Char, code}
use Prim.Native.String.{String, compare}
use Prim.Native.String.compare
use mathlib.Core.Path.{◌≡◌}
use mathlib.Core.Bool.{Bool, true, false}
use native.Mathlib.Omega.{arith}
use text.Mathlib.Text.{◌==◌ as str_eq}
use text.Mathlib.TextEquality.{eq_iff, path_by_compare}
use text.Mathlib.TextPositions.{compare_refl}
use tee.Base.Order.{Eq, Ord, KeyOrd, IsLawful, then}

-- `String::is_empty`.
abbrev pub is_empty : String → Bool
is_empty String.[] = true
is_empty (String.◌∷◌ _ _) = false

instance abbrev pub string_eq : Eq String
string_eq = record { beq = str_eq; beq_iff = eq_iff }

-- The clauses of the native comparison, in one equation for each shape of the arguments.
module _ (c d : Char) (s t : String) where
  compare-cons :
      compare (String.◌∷◌ c s) (String.◌∷◌ d t) ≡ then (compare_ℕ (code c) (code d)) (compare s t)
  compare-cons = λ i. compare.cons-cons c d s t i

compare-nil : (d : Char) (t : String) → compare String.[] (String.◌∷◌ d t) ≡ lt
compare-nil d t = λ i. compare.nil-cons d t i

compare-cons_nil : (c : Char) (s : String) → compare (String.◌∷◌ c s) String.[] ≡ gt
compare-cons_nil c s = λ i. compare.cons-nil c s i

lt_of_gt : (s t : String) → compare s t ≡ gt → compare t s ≡ lt
lt_of_gt String.[] String.[] h = cc
lt_of_gt String.[] (String.◌∷◌ d t) h = cc (compare-nil d t)
lt_of_gt (String.◌∷◌ c s) String.[] h = compare-nil c s
lt_of_gt (String.◌∷◌ c s) (String.◌∷◌ d t) h =
    ground (arith, compare-cons c d s t, compare-cons d c t s, lt_of_gt s t)

gt_of_lt : (s t : String) → compare s t ≡ lt → compare t s ≡ gt
gt_of_lt String.[] String.[] h = cc
gt_of_lt String.[] (String.◌∷◌ d t) h = compare-cons_nil d t
gt_of_lt (String.◌∷◌ c s) String.[] h = cc (compare-cons_nil c s)
gt_of_lt (String.◌∷◌ c s) (String.◌∷◌ d t) h =
    ground (arith, compare-cons c d s t, compare-cons d c t s, gt_of_lt s t)

lt_trans : (s t u : String) → compare s t ≡ lt → compare t u ≡ lt → compare s u ≡ lt
lt_trans String.[] String.[] u h k = k
lt_trans String.[] (String.◌∷◌ d t) String.[] h k = cc (compare-cons_nil d t)
lt_trans String.[] (String.◌∷◌ d t) (String.◌∷◌ e u) h k = compare-nil e u
lt_trans (String.◌∷◌ c s) String.[] u h k = cc (compare-cons_nil c s)
lt_trans (String.◌∷◌ c s) (String.◌∷◌ d t) String.[] h k = cc (compare-cons_nil d t)
lt_trans (String.◌∷◌ c s) (String.◌∷◌ d t) (String.◌∷◌ e u) h k =
    ground (arith, compare-cons c d s t, compare-cons d e t u, compare-cons c e s u, lt_trans s t u)

pub compare-IsLawful : IsLawful compare
compare-IsLawful = record {
  cmp_refl = compare_refl;
  lt_of_gt = lt_of_gt;
  gt_of_lt = gt_of_lt;
  lt_trans = lt_trans;
  cmp_congr = λ s t u h. rw (path_by_compare s t h);
}

instance unfoldable pub string_ord : Ord String
string_ord = record { cmp = compare; lawful = compare-IsLawful }

instance unfoldable pub string_key : KeyOrd String
unfolding string_ord
string_key = record { ord = string_ord; eq_of_cmp = path_by_compare }

pub compare-eq : (s t : String) → string_ord.cmp s t ≡ Ordering.eq → s ≡ t
unfolding string_ord
compare-eq = path_by_compare
