-- ===== src/Store/Interface/Delivery.antt =====
-- A client of the trait `Store` whose deltas may arrive more than once.
use tee.Base.{◌≡◌, refl, ap, ◌∙◌, ◌⊎◌, inl, inr, List, [], ◌∷◌, All, All-imp}
use tee.Base.Fold.{fold_all}
use tee.Lattices.{Lattices}
use tee.Proto
use tee.Store.State.{InnerState}
use tee.Store.Hypothesis.Absorbed.{
  IsAbsorbed, merge_hypothesis-idle, merge_hypothesis-IsAbsorbed, merge_hypothesis-keeps_absorbed,
}
use tee.Store.Interface.{Store, Absorbs, in_memory_store}

abbrev pub Deltas : Type 0
Deltas = List Proto.HypothesisDelta

-- A delta is one of a list.
abbrev pub OneOf : Proto.HypothesisDelta → Deltas → Type 0
OneOf d [] = ⊥
OneOf d (c ∷ cs) = (d ≡ c) ⊎ OneOf d cs

-- What arrives of what is sent, after some deltas have arrived: every delta in turn, and between
-- these any that have arrived before.
pub data Arrives : Deltas → Deltas → Deltas → Type 0 where
  all_arrived : {before : Deltas} → Arrives before [] []
  first_time :
      {d : Proto.HypothesisDelta} {before sent arrived : Deltas}
      → Arrives (d ∷ before) sent arrived
      → Arrives before (d ∷ sent) (d ∷ arrived)
  once_more :
      {d : Proto.HypothesisDelta} {before sent arrived : Deltas}
      → OneOf d before
      → Arrives before sent arrived
      → Arrives before sent (d ∷ arrived)

-- The state that deltas leave behind, one after the other.
abbrev pub deliver : {S : Type 0} → Store S → Deltas → S → S
deliver T = fold_all (λ d s. (T.merge_hypothesis d s).0)

All-OneOf :
    (P : Proto.HypothesisDelta → Type 0) {d : Proto.HypothesisDelta} (cs : Deltas)
    → All P cs
    → OneOf d cs
    → P d
All-OneOf P [] h o = absurd o
All-OneOf P (c ∷ cs) h (inl e) = rw e h.0
All-OneOf P (c ∷ cs) h (inr o) = All-OneOf P cs h.1 o

deliver_after :
    {S : Type 0} (T : Store S) (A : Absorbs T) {before sent arrived : Deltas} (s : S)
    → Arrives before sent arrived
    → All (λ d. A.IsAbsorbed d s) before
    → deliver T arrived s ≡ deliver T sent s
unfolding fold_all
deliver_after T A s all_arrived h = refl
deliver_after T A {before} s (first_time {d} r) h =
    deliver_after T A (T.merge_hypothesis d s).0 r
      (A.merged d s, All-imp (λ c. A.kept c d s) before h)
deliver_after T A {before} s (once_more {d} {sent} {arrived} o r) h =
    ap (deliver T arrived) (A.idle d s (All-OneOf (λ c. A.IsAbsorbed c s) before h o))
    ∙ deliver_after T A s r h

-- Deltas that arrive at a store with the contract in the order in which they were sent, some of them
-- several times, leave the state behind that they leave when each arrives once.
deliver_arrived :
    {S : Type 0} (T : Store S) (A : Absorbs T) {sent arrived : Deltas} (s : S)
    → Arrives [] sent arrived
    → deliver T arrived s ≡ deliver T sent s
deliver_arrived T A s r = deliver_after T A s r tt

module _ ⦃L : Lattices⦄ where
  in_memory_store-Absorbs : Absorbs in_memory_store
  in_memory_store-Absorbs = record {
    IsAbsorbed = IsAbsorbed;
    merged = merge_hypothesis-IsAbsorbed;
    kept = merge_hypothesis-keeps_absorbed;
    idle = merge_hypothesis-idle;
  }

  -- Deltas that reach the in-memory store in the order in which they were sent, but some of them
  -- again at any later time, leave the state behind that they leave when each arrives once.
  pub in_memory_store-deliver :
      {sent arrived : Deltas} (s : InnerState)
      → Arrives [] sent arrived
      → deliver in_memory_store arrived s ≡ deliver in_memory_store sent s
  in_memory_store-deliver s r = deliver_arrived in_memory_store in_memory_store-Absorbs s r
