-- ===== src/Store/Interface.antt =====
-- The trait `Store` of store/mod.rs, and InMemoryStore of store/memory.rs as an implementation. The
-- state behind `&self` is an argument; `create_incident` is also given what the clock shows.
pub mod Delivery
use tee.Base.{ℕ, ◌≡◌, String, Option, Result}
use tee.Lattices.{Lattices}
use tee.Proto
use tee.Store.State.{StoreError, InnerState}
use tee.Store.Hypothesis
use tee.Store.Incidents
use tee.Store.Tombstones
use tee.Store.Views

pub record Store (S : Type 0) : Type 0 where
  pub merge_hypothesis :
      Proto.HypothesisDelta → S → S × Result Proto.HypothesisMergeResult StoreError
  pub create_incident :
      Option (ℕ × ℕ) → String → S → S × Result Proto.CreateIncidentResult StoreError
  pub get_incident_context : String → S → Result Proto.IncidentContext StoreError
  pub merge_node_tombstones :
      Proto.NodeTombstoneRequest → S → S × Result Proto.TombstoneMergeResult StoreError
  pub merge_edge_tombstones :
      Proto.EdgeTombstoneRequest → S → S × Result Proto.TombstoneMergeResult StoreError
  pub get_live_view : String → S → Result Proto.CausalGraph StoreError
  pub get_tombstones : String → S → Result Proto.TombstoneSet StoreError
  pub get_main_graph : S → Result Proto.CausalGraph StoreError

-- The contract on deltas that clients rely on: a delta that was merged has nothing to add any more.
pub record Absorbs {S : Type 0} (T : Store S) : Type 1 where
  pub IsAbsorbed : Proto.HypothesisDelta → S → Type 0
  pub merged : (d : Proto.HypothesisDelta) (s : S) → IsAbsorbed d (T.merge_hypothesis d s).0
  pub kept :
      (d c : Proto.HypothesisDelta) (s : S)
      → IsAbsorbed d s
      → IsAbsorbed d (T.merge_hypothesis c s).0
  pub idle : (d : Proto.HypothesisDelta) (s : S) → IsAbsorbed d s → (T.merge_hypothesis d s).0 ≡ s

module _ ⦃L : Lattices⦄ where
  -- `impl Store for InMemoryStore`.
  abbrev pub in_memory_store : Store InnerState
  in_memory_store = record {
    merge_hypothesis = Hypothesis.merge_hypothesis;
    create_incident = Incidents.create_incident;
    get_incident_context = Incidents.get_incident_context;
    merge_node_tombstones = Tombstones.merge_node_tombstones;
    merge_edge_tombstones = Tombstones.merge_edge_tombstones;
    get_live_view = Views.get_live_view;
    get_tombstones = Tombstones.get_tombstones;
    get_main_graph = Views.get_main_graph;
  }
