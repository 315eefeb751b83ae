-- ===== src/Refinement.antt =====
-- store/memory.rs against the reference store (Reference): what the state of the
-- in-memory store is, seen as partial maps.
pub mod Maps
pub mod Proven
pub mod Entries
pub mod Nodes
pub mod Edges
pub mod Tombstones
pub mod Methods
pub mod Lookup
pub mod Reads
pub mod Buried
pub mod Service
pub mod Outline
pub mod Proposals
pub mod Commute
pub mod Convergence
pub mod Fates
pub mod Answer
use mathlib.Core.Option
use tee.Base.{ℤ, String, Bool, Option, none, some, string_ord, string_key}
use tee.Collections.BTreeSet.{BTreeSet, contains}
use tee.Collections.BTreeSet
use tee.Collections.BTreeMap.{BTreeMap, get}
use tee.Lattices.{Lattices}
use tee.Domain.Types.{NodeType}
use tee.Domain.Provenance
use tee.Domain.Provenance.{Provenance, provenance_ord}
use tee.Domain.Node.{NodeLattice}
use tee.Domain.Edge.{EdgeKey, EdgeLattice, edge_ord, edge_key}
use tee.Store.State.{InnerState, IncidentState}
use tee.Reference.{Events, Entry, Incident, Graph}

abbrev pub stamp : Provenance → ℤ × ℤ
stamp p = (p.timestamp_seconds, p.timestamp_nanos)

-- The events that a provenance set holds.
abbrev pub events : BTreeSet Provenance → Events
events s source trigger = Option.map stamp (BTreeSet.get s (Provenance.new source trigger))

abbrev pub view_fields : Option NodeType → Option String → Bool → BTreeSet Provenance → Option Entry
view_fields (some t) (some l) h p =
    some (record { node_type = t; label = l; hypothetical = h; events = events p })
view_fields (some t) none h p = none
view_fields none l h p = none

abbrev pub view_incident : IncidentState → Incident
view_incident i = record {
  created_at = i.created_at;
  dead_nodes = contains i.node_tombstones;
  dead_edges = contains i.edge_tombstones;
}

module _ ⦃L : Lattices⦄ where
  -- A node in conflict has no view; the store never keeps one.
  abbrev pub view_node : Option NodeLattice → Option Entry
  view_node none = none
  view_node (some n) =
      view_fields (L.conflict_reveal n.node_type) (L.conflict_reveal n.label)
        (L.min_reveal n.hypothetical) (L.set_reveal n.provenance)

  abbrev pub view_nodes : BTreeMap String NodeLattice → String → Option Entry
  view_nodes m id = view_node (get m id)

  abbrev pub view_edges : BTreeMap EdgeKey EdgeLattice → EdgeKey → Option Events
  view_edges m k = Option.map (λ e. events (L.set_reveal e.provenance)) (get m k)

  abbrev pub view_incidents : BTreeMap String IncidentState → String → Option Incident
  view_incidents m id = Option.map view_incident (get m id)

  abbrev pub view : InnerState → Graph
  view s = record {
    nodes = view_nodes s.nodes;
    edges = view_edges s.edges;
    incidents = view_incidents s.incidents;
  }
