-- ===== src/Domain/Graph.antt =====
-- domain/graph.rs: the graph as two maps of the crate, which merge as a whole.
use tee.Base.{String, string_key}
use tee.Lattices.{Lattices, Merge}
use tee.Domain.Node
use tee.Domain.Node.{NodeLattice}
use tee.Domain.Edge
use tee.Domain.Edge.{EdgeKey, EdgeLattice, edge_key}

module _ ⦃L : Lattices⦄ where
  abbrev pub NodeMap : Type 0
  NodeMap = L.MapUnion String NodeLattice

  abbrev pub EdgeMap : Type 0
  EdgeMap = L.MapUnion EdgeKey EdgeLattice

  instance abbrev pub node_merge : Merge NodeLattice
  node_merge = record { merge = Node.merge; is_bot = Node.is_bot }

  instance abbrev pub edge_merge : Merge EdgeLattice
  edge_merge = record { merge = Edge.merge; is_bot = Edge.is_bot }
