-- ===== src/Reference.antt =====
-- README.md, "Data Types" and "Neo4j Schema": the data that the documentation describes, as partial
-- maps. A node or an edge is found by its identity, and a provenance event by who and why; there is
-- no order, no representation of sets and no lattice. Where README.md and store/memory.rs differ, the
-- reference does as the code does: the children name the places.
pub mod Hypothesis
pub mod Tombstones
pub mod Service
use tee.Base.{
  ℤ, pos, String, Bool, false, none, some, Option, List, [], ◌∷◌, KeyOrd, ◌&&◌, if◌then◌else◌,
  string_eq,
}
use tee.Collections.BTreeSet.{is_eq}
use tee.Collections.BTreeSet.Joins.{or_else}
use tee.Proto
use tee.Domain.Types.{NodeType}
use tee.Domain.Edge.{EdgeKey}

-- When something was done, by who did it and why.
abbrev pub Events : Type 0
Events = String → String → Option (ℤ × ℤ)

pub record Entry : Type 0 where
  pub node_type : NodeType
  pub label : String
  pub hypothetical : Bool
  pub events : Events

pub record Incident : Type 0 where
  pub created_at : ℤ × ℤ
  pub dead_nodes : String → Bool
  pub dead_edges : EdgeKey → Bool

pub record Graph : Type 0 where
  pub nodes : String → Option Entry
  pub edges : EdgeKey → Option Events
  pub incidents : String → Option Incident

abbrev pub empty : Graph
empty = record { nodes = λ id. none; edges = λ k. none; incidents = λ id. none }

-- A partial map changed at one key.
abbrev pub set {ℓ κ} :
    {K : Type ℓ} {V : Type κ} ⦃o : KeyOrd K⦄ → (K → Option V) → K → V → K → Option V
set ⦃o⦄ m k v j = if is_eq (o.cmp j k) then some v else m j

abbrev pub time_of : Option Proto.Timestamp → ℤ × ℤ
time_of none = (pos 0, pos 0)
time_of (some t) = (t.seconds, t.nanos)

-- The events of a message. Of two entries with the same source and trigger the later counts.
abbrev pub events_of : List Proto.Provenance → Events
events_of [] source trigger = none
events_of (p ∷ ps) source trigger = or_else (events_of ps source trigger) (
    if string_eq.beq source p.source && string_eq.beq trigger p.trigger
    then some (time_of p.timestamp)
    else none)

-- Events are appended, and the one that is there stays.
abbrev pub append : Events → Events → Events
append old new source trigger = or_else (old source trigger) (new source trigger)
