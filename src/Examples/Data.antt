-- ===== src/Examples/Data.antt =====
-- Messages like those of the tests of the source.
use tee.Base.{string_eq, ◌≡◌, ◌≢◌, arith, false, ℤ, pos, String, true, none, some, [], ◌∷◌}
use tee.Proto
use tee.Examples.Model.{lattices}

abbrev pub agent : Proto.Provenance
agent = record { source = "agent-1"; timestamp = none; trigger = "alert" }

abbrev pub retry : Proto.Provenance
retry = record {
  source = "agent-1";
  timestamp = some (record { seconds = pos 9; nanos = pos 0 });
  trigger = "alert";
}

-- `make_node` and `make_edge` of the tests.
abbrev pub make_node : String → ℤ → String → Proto.Node
make_node id type label = record {
  id = id;
  type = type;
  label = label;
  hypothetical = true;
  provenance = agent ∷ [];
}

abbrev pub make_edge : String → String → ℤ → Proto.Edge
make_edge source target type = record {
  source = source;
  target = target;
  type = type;
  provenance = agent ∷ [];
}

-- Two services, and one depends on the other.
abbrev pub sample : Proto.HypothesisDelta
sample = record {
  nodes = make_node "n2" (pos 1) "db" ∷ make_node "n1" (pos 1) "svc" ∷ [];
  edges = make_edge "n1" "n2" (pos 1) ∷ [];
}

-- A node that clashes, a new one, and one whose type is no type.
abbrev pub mixed : Proto.HypothesisDelta
mixed = record {
  nodes =
      make_node "n1" (pos 3) "svc"
      ∷ make_node "n3" (pos 4) "queue"
      ∷ make_node "n4" (pos 99) "odd"
      ∷ [];
  edges = [];
}

-- After `sample`: a node with another label, two proposals of a new one, that of a known one, an edge
-- that is there and a new one.
abbrev pub rival : Proto.HypothesisDelta
rival = record {
  nodes =
      make_node "n1" (pos 1) "api"
      ∷ make_node "n3" (pos 1) "queue"
      ∷ make_node "n2" (pos 1) "db"
      ∷ make_node "n3" (pos 3) "queue"
      ∷ [];
  edges = make_edge "n1" "n2" (pos 1) ∷ make_edge "n3" "n1" (pos 1) ∷ [];
}

abbrev pub tombstones : Proto.NodeTombstoneRequest
tombstones = record {
  incident_id = "inc-1";
  node_ids = "n1" ∷ "ghost" ∷ "n1" ∷ [];
  provenance = some agent;
}

abbrev pub edge_tombstones : Proto.EdgeTombstoneRequest
edge_tombstones = record {
  incident_id = "inc-1";
  entries =
      record { source = "n1"; target = "n2"; type = pos 1 }
      ∷ record { source = "n1"; target = "n2"; type = pos 99 }
      ∷ [];
  provenance = some agent;
}

-- Texts that the test tells apart differ.
pub differ : (a b : String) → string_eq.beq a b ≡ false → a ≢ b
differ a b h e = ground (arith, string_eq.beq_iff a b)
