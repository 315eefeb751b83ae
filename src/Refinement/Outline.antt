-- ===== src/Refinement/Outline.antt =====
-- Entries of the reference graph without the times of their events.
use mathlib.Core.Option
use tee.Base.{
  ◌≡◌, refl, ap, sym, ◌∙◌, fun_ext, inl, inr, String, Bool, true, ◌&&◌, ◌||◌, Option, none, some,
  arith, is_some, Bool-cases, string_eq, if◌then◌else◌,
}
use tee.Collections.BTreeSet.Joins.{or_else}
use tee.Domain.Types.{NodeType, node_type_eq}
use tee.Reference.{Events, Entry, append}
use tee.Reference.Hypothesis.{propose, append_at}

-- Who did something, and why.
abbrev pub Reasons : Type 0
Reasons = String → String → Bool

abbrev pub reasons : Events → Reasons
reasons e source trigger = is_some (e source trigger)

abbrev pub both : Reasons → Reasons → Reasons
both a b source trigger = a source trigger || b source trigger

pub record Outline : Type 0 where
  pub node_type : NodeType
  pub label : String
  pub hypothetical : Bool
  pub reasons : Reasons

abbrev pub outline : Entry → Outline
outline e = record {
  node_type = e.node_type;
  label = e.label;
  hypothetical = e.hypothetical;
  reasons = reasons e.events;
}

-- A proposal, in outline.
abbrev pub same : Outline → Outline → Bool
same a b = node_type_eq.beq a.node_type b.node_type && string_eq.beq a.label b.label

abbrev pub joined : Outline → Outline → Outline
joined a b = record a {
  hypothetical = a.hypothetical && b.hypothetical;
  reasons = both a.reasons b.reasons;
}

abbrev pub put : Option Outline → Outline → Option Outline
put none b = some b
put (some a) b = some (if same a b then joined a b else a)

abbrev pub put_reasons : Option Reasons → Reasons → Option Reasons
put_reasons none b = some b
put_reasons (some a) b = some (both a b)

is_some-or_else {ℓ} : {A : Type ℓ} (a b : Option A) → is_some (or_else a b) ≡ is_some a || is_some b
is_some-or_else none b = refl
is_some-or_else (some a) b = refl

reasons-append : (a b : Events) → reasons (append a b) ≡ both (reasons a) (reasons b)
reasons-append a b =
    fun_ext (λ source. fun_ext (λ trigger. is_some-or_else (a source trigger) (b source trigger)))

pub outline-propose :
    (x : Option Entry) (e : Entry)
    → some (outline (propose x e)) ≡ put (Option.map outline x) (outline e)
outline-propose none e = refl
outline-propose (some a) e = elim (Bool-cases (same (outline a) (outline e))) [
  | inl h ↦ rw h (λ i. some (record (outline a) {
    hypothetical = a.hypothetical && e.hypothetical;
    reasons = reasons-append a.events e.events i;
  }))
  | inr h ↦ rw h
]

pub reasons-append_at :
    (x : Option Events) (e : Events)
    → some (reasons (append_at x e)) ≡ put_reasons (Option.map reasons x) (reasons e)
reasons-append_at none e = refl
reasons-append_at (some a) e = ap (λ r. some r) (reasons-append a e)

-- Two outlines of the same type and label.
pub record Agrees (a b : Outline) : Type 0 where
  pub node_type : a.node_type ≡ b.node_type
  pub label : a.label ≡ b.label

both_comm : (a b : Reasons) → both a b ≡ both b a
both_comm a b = fun_ext (λ source. fun_ext (λ trigger. ground arith))

both_swap : (a b c : Reasons) → both (both a b) c ≡ both (both a c) b
both_swap a b c = fun_ext (λ source. fun_ext (λ trigger. ground arith))

same_refl : (a b : Outline) → Agrees a b → same a b ≡ true
same_refl a b g = ground (
  arith,
  node_type_eq.beq_iff a.node_type b.node_type,
  string_eq.beq_iff a.label b.label,
  g.node_type,
  g.label,
)

joined_comm : (a b : Outline) → Agrees a b → joined a b ≡ joined b a
joined_comm a b g =
    let flag : a.hypothetical && b.hypothetical ≡ b.hypothetical && a.hypothetical = ground arith in
    λ i. record {
      node_type = g.node_type i;
      label = g.label i;
      hypothetical = flag i;
      reasons = both_comm a.reasons b.reasons i;
    }

joined_swap : (a b c : Outline) → joined (joined a b) c ≡ joined (joined a c) b
joined_swap a b c =
    let flag : a.hypothetical && b.hypothetical && c.hypothetical
        ≡ a.hypothetical && c.hypothetical && b.hypothetical =
      ground arith in
    λ i. record a { hypothetical = flag i; reasons = both_swap a.reasons b.reasons c.reasons i }

-- Two proposals that agree may come in either order.
pub put_comm : (x : Option Outline) (b c : Outline) → Agrees b c → put (put x b) c ≡ put (put x c) b
put_comm none b c g =
    let back : Agrees c b = record { node_type = sym g.node_type; label = sym g.label } in
    rw (same_refl b c g, same_refl c b back) (ap (λ o. some o) (joined_comm b c g))
put_comm (some a) b c g =
    let alike : same a c ≡ same a b =
      sym
        (λ i. node_type_eq.beq a.node_type (g.node_type i) && string_eq.beq a.label (g.label i)) in
    elim (Bool-cases (same a b)) [
      | inl h ↦ rw (h, alike ∙ h, h) (ap (λ o. some o) (joined_swap a b c))
      | inr h ↦ rw (h, alike ∙ h, h)
    ]

pub put_reasons_comm :
    (x : Option Reasons) (b c : Reasons)
    → put_reasons (put_reasons x b) c ≡ put_reasons (put_reasons x c) b
put_reasons_comm none b c = ap (λ r. some r) (both_comm b c)
put_reasons_comm (some a) b c = ap (λ r. some r) (both_swap a b c)
