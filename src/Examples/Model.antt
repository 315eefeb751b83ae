-- ===== src/Examples/Model.antt =====
-- Instances of the parameters: `Conflict` as an option, `Min` and `SetUnion` as what they hold,
-- messages that are their own requests, and statuses that are a number and a text.
use tee.Base.{
  ℕ, ◌≡◌, ◌≢◌, ap, refl, Bool, true, false, not, ◌&&◌, Option, none, some, arith, Eq, Ord, is_some,
  is_none, length, ltb, String, inl, inr, [], ◌∷◌, ◌||◌, KeyOrd, All, Option-cases, ◌∙◌,
  if◌then◌else◌,
}
use tee.Base.Fold.{fold_all}
use tee.Collections.BTreeSet.{is_eq}
use tee.Collections.BTreeMap.{BTreeMap, get, insert, get-insert, IsSorted}
use tee.Collections.BTreeMap.Pointwise.{absorb_all, get-fold_all}
use tee.Collections.BTreeSet.{BTreeSet, extend}
use tee.Collections.BTreeSet.Elements.{extend-grows}
use tee.Lattices.{Lattices, Merge, agree, join}
use tee.Service.Runtime.{Runtime}

pub agree_unchanged :
    {T : Type 0} ⦃e : Eq T⦄ (c d : Option T)
    → is_some c && is_none (agree c d) ≡ false
    → agree c d ≡ c
agree_unchanged none d h = refl
agree_unchanged (some a) none h = cc
agree_unchanged (some a) (some b) h = ground arith

pub agree_changed :
    {T : Type 0} ⦃e : Eq T⦄ (c d : Option T)
    → is_some c && is_none (agree c d) ≡ true
    → agree c d ≢ c
agree_changed none d h = cc
agree_changed (some a) none h = λ k. cc
agree_changed (some a) (some b) h = λ k. ground arith

pub and_unchanged : (c d : Bool) → c && not d ≡ false → c && d ≡ c
and_unchanged c d h = ground arith

pub and_changed : (c d : Bool) → c && not d ≡ true → c && d ≢ c
and_changed c d h = λ k. ground arith

pub extend_unchanged :
    {T : Type 0} ⦃o : Ord T⦄ (c d : BTreeSet T)
    → ltb (length c) (length (extend c d)) ≡ false
    → extend c d ≡ c
extend_unchanged c d h = elim (extend-grows c d) [
  | inl same ↦ same
  | inr longer ↦ absurd (ground arith)
]

pub extend_changed :
    {T : Type 0} ⦃o : Ord T⦄ (c d : BTreeSet T)
    → ltb (length c) (length (extend c d)) ≡ true
    → extend c d ≢ c
extend_changed c d h k = ground (arith, ap length k)

-- One entry of the right map merged into the left map. A value at the bottom is no entry.
abbrev put : {K V : Type 0} ⦃o : KeyOrd K⦄ ⦃m : Merge V⦄ → K × V → BTreeMap K V → BTreeMap K V
put ⦃o⦄ ⦃m⦄ (k, v) c =
    if m.is_bot v
    then c
    else elim (get c k) [ none ↦ insert c k v | some a ↦ insert c k (m.merge a v).0 ]

-- Whether that changes the map.
abbrev puts : {K V : Type 0} ⦃o : KeyOrd K⦄ ⦃m : Merge V⦄ → K × V → BTreeMap K V → Bool
puts ⦃o⦄ ⦃m⦄ (k, v) c =
    if m.is_bot v then false else elim (get c k) [ none ↦ true | some a ↦ (m.merge a v).1 ]

abbrev pub put_all :
    {K V : Type 0} ⦃o : KeyOrd K⦄ ⦃m : Merge V⦄ → BTreeMap K V → BTreeMap K V → BTreeMap K V × Bool
put_all [] c = (c, false)
put_all (e ∷ d) c = let (c', b) = put_all d (put e c) in (c', puts e c || b)

put_all-fold :
    {K V : Type 0} ⦃o : KeyOrd K⦄ ⦃m : Merge V⦄ (d c : BTreeMap K V)
    → (put_all d c).0 ≡ fold_all put d c
unfolding fold_all
put_all-fold [] c = refl
put_all-fold (e ∷ d) c = put_all-fold d (put e c)

get-put :
    {K V : Type 0} ⦃o : KeyOrd K⦄ ⦃m : Merge V⦄ (e : K × V) (c : BTreeMap K V) (j : K)
    → m.is_bot e.1 ≡ false
    → get (put e c) j ≡ (if is_eq (o.cmp j e.0) then join (get c e.0) (some e.1) else get c j)
get-put (k, v) c j h = elim (Option-cases (get c k)) [
  | inl g ↦ rw (h, put, g) (get-insert c k v j)
  | inr (a, g) ↦ rw (h, put, g) (get-insert c k _ j)
]

join-absorb :
    {V : Type 0} ⦃m : Merge V⦄ (x y : Option V) → absorb_all (λ a b. join a (some b)) x y ≡ join x y
join-absorb none none = refl
join-absorb none (some b) = refl
join-absorb (some a) none = refl
join-absorb (some a) (some b) = refl

pub put_all-join :
    {K V : Type 0} ⦃o : KeyOrd K⦄ ⦃m : Merge V⦄ (d c : BTreeMap K V) (k : K)
    → IsSorted d
    → All (λ e. m.is_bot e.1 ≡ false) d
    → get (put_all d c).0 k ≡ join (get c k) (get d k)
put_all-join ⦃o⦄ ⦃m⦄ d c k s h =
    ap (λ x. get x k) (put_all-fold d c)
    ∙ get-fold_all (λ x v. join x (some v)) put (λ e. m.is_bot e.1 ≡ false) get-put d c k s h
    ∙ join-absorb (get c k) (get d k)

instance abbrev pub lattices : Lattices
lattices = record {
  Conflict = Option;
  conflict_new_from = λ a. some a;
  conflict_is_top = λ c. is_none c;
  conflict_reveal = λ c. c;
  conflict_merge = λ c d. (agree c d, is_some c && is_none (agree c d));
  conflict_ext = λ c d h. h;
  conflict_reveal-new = λ a. refl;
  conflict_top = λ c. refl;
  conflict_reveal-merge = λ c d. refl;
  conflict_unchanged = λ c d. agree_unchanged c d;
  conflict_changed = λ c d. agree_changed c d;
  Min = λ T. T;
  min_new = λ a. a;
  min_reveal = λ a. a;
  min_merge = λ c d. (c && d, c && not d);
  min_ext = λ c d h. h;
  min_reveal-new = λ a. refl;
  min_reveal-merge = λ c d. refl;
  min_unchanged = and_unchanged;
  min_changed = and_changed;
  SetUnion = λ T. BTreeSet T;
  set_new = λ s. s;
  set_reveal = λ s. s;
  set_merge = λ c d. (extend c d, ltb (length c) (length (extend c d)));
  set_ext = λ c d h. h;
  set_reveal-new = λ s. refl;
  set_reveal-merge = λ c d. refl;
  set_unchanged = λ c d. extend_unchanged c d;
  set_changed = λ c d. extend_changed c d;
  MapUnion = λ K V. BTreeMap K V;
  map_default = [];
  map_new = λ b. b;
  map_reveal = λ b. b;
  map_merge = λ c d. put_all d c;
  map_reveal-default = refl;
  map_reveal-new = λ b. refl;
  map_reveal-merge = λ c d k hc hd h. put_all-join d c k hd h;
}

instance abbrev pub runtime : Runtime
runtime = record {
  Request = λ A. A;
  Response = λ A. A;
  into_inner = λ a. a;
  response_new = λ a. a;
  get_ref = λ a. a;
  get_ref-new = λ a. refl;
  Status = ℕ × String;
  Code = ℕ;
  invalid_argument = λ m. (3, m);
  not_found = λ m. (5, m);
  internal = λ m. (13, m);
  code = λ s. s.0;
  message = λ s. s.1;
  invalid_argument_code = 3;
  not_found_code = 5;
  internal_code = 13;
  code-invalid_argument = λ m. refl;
  code-not_found = λ m. refl;
  code-internal = λ m. refl;
  message-invalid_argument = λ m. refl;
  message-not_found = λ m. refl;
  message-internal = λ m. refl;
  invalid_argument-ne-internal = omega arith;
  invalid_argument-ne-not_found = omega arith;
  not_found-ne-internal = omega arith;
  debug = λ s. s;
}
