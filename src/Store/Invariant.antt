-- ===== src/Store/Invariant.antt =====
-- What holds of the store whenever no method is running.
pub mod Proven
pub mod Nodes
pub mod Edges
pub mod Methods
use tee.Base.{◌≡◌, ◌≢◌, ℤ, String, Option, some, [], All, string_key, string_ord}
use tee.Collections.BTreeSet
use tee.Collections.BTreeSet.{BTreeSet}
use tee.Collections.BTreeMap
use tee.Lattices.{Lattices}
use tee.Domain.Types.{NodeType}
use tee.Domain.Provenance.{Provenance, provenance_ord}
use tee.Domain.Node.{NodeLattice}
use tee.Domain.Edge.{EdgeKey, EdgeLattice, edge_key, edge_ord}
use tee.Store.State.{InnerState, IncidentState}

pub record IsNamed (p : Provenance) : Type 0 where
  pub source : p.source ≢ ""
  pub trigger : p.trigger ≢ ""

-- A set of provenance entries is in order, is not empty, and names who and why in each entry.
pub record IsProven (s : BTreeSet Provenance) : Type 0 where
  pub sorted : BTreeSet.IsSorted s
  pub some_entry : s ≢ []
  pub named : All IsNamed s

-- An incident has a name, and its two sets are in order.
pub record IsValidIncident (e : String × IncidentState) : Type 0 where
  pub id : e.0 ≢ ""
  pub nodes_sorted : BTreeSet.IsSorted e.1.node_tombstones
  pub edges_sorted : BTreeSet.IsSorted e.1.edge_tombstones

module _ ⦃L : Lattices⦄ where
  -- A stored node has an id, a type and a label, none of them in conflict, and provenance.
  pub record IsValidNode (e : String × NodeLattice) : Type 0 where
    pub id : e.0 ≢ ""
    pub type : (t : NodeType) × (L.conflict_reveal e.1.node_type ≡ some t)
    pub label : (l : String) × (L.conflict_reveal e.1.label ≡ some l) × (l ≢ "")
    pub proven : IsProven (L.set_reveal e.1.provenance)

  -- A stored edge joins two named ends that differ, and has provenance.
  pub record IsValidEdge (e : EdgeKey × EdgeLattice) : Type 0 where
    pub source : e.0.source ≢ ""
    pub target : e.0.target ≢ ""
    pub no_loop : e.0.source ≢ e.0.target
    pub proven : IsProven (L.set_reveal e.1.provenance)

  pub record IsValid (s : InnerState) : Type 0 where
    pub nodes_sorted : BTreeMap.IsSorted s.nodes
    pub nodes_valid : All IsValidNode s.nodes
    pub edges_sorted : BTreeMap.IsSorted s.edges
    pub edges_valid : All IsValidEdge s.edges
    pub incidents_sorted : BTreeMap.IsSorted s.incidents
    pub incidents_valid : All IsValidIncident s.incidents
