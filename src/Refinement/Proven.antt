-- ===== src/Refinement/Proven.antt =====
-- Provenance sets as events: those of a message, and the union.
use mathlib.Core.Option
use tee.Base.{
  Option-cases, inl, inr, ◌≡◌, refl, ap, ◌∙◌, fun_ext, ◌&&◌, String, Option, none, some, List, [],
  ◌∷◌, map, arith, string_eq, string_key, if◌then◌else◌,
}
use tee.Collections.BTreeSet
use tee.Collections.BTreeSet.{BTreeSet, extend, from_iter, IsSorted, is_eq}
use tee.Collections.BTreeSet.Joins.{or_else, get-extend, first-get, last, get-from_iter}
use tee.Proto
use tee.Domain.Provenance
use tee.Domain.Provenance.{Provenance, provenance_ord}
use tee.Convert.{provenance_from_proto}
use tee.Reference.{events_of, append, time_of}
use tee.Refinement.{events, stamp}

map-or_else {ℓ κ} :
    {A : Type ℓ} {B : Type κ} (f : A → B) (a b : Option A)
    → Option.map f (or_else a b) ≡ or_else (Option.map f a) (Option.map f b)
map-or_else f none b = refl
map-or_else f (some a) b = refl

pub events-extend :
    (p q : BTreeSet Provenance) → IsSorted q → events (extend p q) ≡ append (events p) (events q)
events-extend p q h = fun_ext (λ s. fun_ext (λ t.
    let y = Provenance.new s t in
    ap (Option.map stamp) (get-extend p q y ∙ ap (or_else (BTreeSet.get p y)) (first-get q y h))
    ∙ map-or_else stamp _ _))

-- One entry of a message, as an event.
last-event :
    (p : Proto.Provenance) (s t : String)
    → Option.map stamp (
        if is_eq (provenance_ord.cmp (Provenance.new s t) (provenance_from_proto p))
        then some (provenance_from_proto p)
        else none)
      ≡ (if string_eq.beq s p.source && string_eq.beq t p.trigger
          then some (time_of p.timestamp)
          else none)
unfolding Provenance.new Provenance.with_timestamp provenance_from_proto provenance_ord
    Provenance.cmp string_key
last-event p s t = elim (Option-cases p.timestamp) [
  | inl h ↦ rw h (ground arith)
  | inr (z, h) ↦ rw h (ground arith)
]

last-events :
    (ps : List Proto.Provenance) (s t : String)
    → Option.map stamp (last (map provenance_from_proto ps) (Provenance.new s t)) ≡ events_of ps s t
last-events [] s t = refl
last-events (p ∷ ps) s t =
    map-or_else stamp (last (map provenance_from_proto ps) (Provenance.new s t)) _
    ∙ (λ i. or_else (last-events ps s t i) (last-event p s t i))

pub events-from_iter :
    (ps : List Proto.Provenance) → events (from_iter (map provenance_from_proto ps)) ≡ events_of ps
events-from_iter ps = fun_ext (λ s. fun_ext (λ t.
    ap (Option.map stamp) (get-from_iter (map provenance_from_proto ps) (Provenance.new s t))
    ∙ last-events ps s t))
