-- ===== src/Store/Snapshot.antt =====
-- `get_main_graph` and `merge_hypothesis` of store/memory.rs: the main graph as a delta.
pub mod Nodes
pub mod Edges
use tee.Base.{
  ◌≡◌, refl, ap, sym, ◌∙◌, inl, inr, Result, ok, err, All, All-map, All-imp, [], List, map,
  string_key, Result-cases,
}
use tee.Base.Fold.{fold_until}
use tee.Lattices.{Lattices}
use tee.Proto
use tee.Validation.{validate_hypothesis_delta}
use tee.Validation.Spec
use tee.Convert.{proto_node_to_domain, proto_edge_to_domain}
use tee.Store.State.{InnerState, new}
use tee.Store.Hypothesis.{merge_nodes, merge_edges, merge_hypothesis, no_results}
use tee.Store.Hypothesis.Nodes.{merge_nodes-fold}
use tee.Store.Hypothesis.Edges.{merge_edges-fold}
use tee.Store.Hypothesis.Replay.{merge_hypothesis-merged}
use tee.Store.Views.{get_main_graph, node_message, edge_message}
use tee.Store.Invariant.{IsValid}
use Nodes.{messages-IsValidNode, merge_nodes-snapshot, merge_nodes-snapshot_ok, merge_nodes-rebuild}
use Edges.{messages-IsValidEdge, merge_edges-snapshot, merge_edges-rebuild}

-- A graph as a delta.
abbrev pub as_delta : Proto.CausalGraph → Proto.HypothesisDelta
as_delta g = record { nodes = g.nodes; edges = g.edges }

module _ ⦃L : Lattices⦄ where
  abbrev pub main_graph : InnerState → Proto.CausalGraph
  main_graph s = record { nodes = map node_message s.nodes; edges = map edge_message s.edges }

  -- A valid store returns its main graph, and this passes the validation of deltas.
  pub get_main_graph-accepted :
      (s : InnerState)
      → IsValid s
      → (g : Proto.CausalGraph) × (get_main_graph s ≡ ok g)
        × (validate_hypothesis_delta (as_delta g) ≡ ok tt)
  unfolding get_main_graph
  get_main_graph-accepted s v = (
    main_graph s,
    refl,
    (Spec.validate_hypothesis_delta-ok (as_delta (main_graph s))).1
        (messages-IsValidNode s.nodes v.nodes_valid, messages-IsValidEdge s.edges v.edges_valid),
  )

  -- Merging the main graph that a valid store returns into that store changes nothing, and merging
  -- it into an empty store rebuilds the nodes and the edges.
  pub merge_hypothesis-main_graph :
      (s : InnerState)
      → IsValid s
      → (g : Proto.CausalGraph) × (get_main_graph s ≡ ok g)
        × ((merge_hypothesis (as_delta g) s).0 ≡ s)
        × ((merge_hypothesis (as_delta g) new).0 ≡ record new { nodes = s.nodes; edges = s.edges })
  unfolding get_main_graph new
  merge_hypothesis-main_graph s v = (main_graph s, refl, same, rebuilt)
    where
      same : (merge_hypothesis (as_delta (main_graph s)) s).0 ≡ s
      same =
          let (r, h) = merge_nodes-snapshot_ok s.nodes s.nodes no_results v.nodes_valid in
          ap (λ o. o.0) (merge_hypothesis-merged (as_delta (main_graph s)) s h) ∙ λ i. record s {
            nodes = merge_nodes-snapshot s.nodes no_results v.nodes_sorted v.nodes_valid i;
            edges = merge_edges-snapshot s.edges r v.edges_sorted v.edges_valid i;
          }

      rebuilt :
          (merge_hypothesis (as_delta (main_graph s)) new).0
          ≡ record new { nodes = s.nodes; edges = s.edges }
      rebuilt =
          let (r, h) = merge_nodes-snapshot_ok s.nodes [] no_results v.nodes_valid in
          ap (λ o. o.0) (merge_hypothesis-merged (as_delta (main_graph s)) new h) ∙ λ i.
          record new {
            nodes = merge_nodes-rebuild s.nodes no_results v.nodes_sorted v.nodes_valid i;
            edges = merge_edges-rebuild s.edges r v.edges_sorted v.edges_valid i;
          }
