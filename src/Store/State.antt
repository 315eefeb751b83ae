-- ===== src/Store/State.antt =====
-- The state behind the lock, and the errors of the store.
use tee.Base.{ℤ, String, [], Result}
use tee.Collections.BTreeSet.{BTreeSet}
use tee.Collections.BTreeMap.{BTreeMap}
use tee.Lattices.{Lattices}
use tee.Domain.Node.{NodeLattice}
use tee.Domain.Edge.{EdgeKey, EdgeLattice}

pub data StoreError : Type 0 where
  incident_not_found backend : String → StoreError

pub record IncidentState : Type 0 where
  pub created_at : ℤ × ℤ
  pub node_tombstones : BTreeSet String
  pub edge_tombstones : BTreeSet EdgeKey

module _ ⦃L : Lattices⦄ where
  pub record InnerState : Type 0 where
    pub nodes : BTreeMap String NodeLattice
    pub edges : BTreeMap EdgeKey EdgeLattice
    pub incidents : BTreeMap String IncidentState

  -- `InMemoryStore::new`.
  unfoldable pub new : InnerState
  new = record { nodes = []; edges = []; incidents = [] }

  -- What a method that writes leaves behind and returns.
  abbrev pub Outcome : Type 0 → Type 0
  Outcome A = InnerState × Result A StoreError
