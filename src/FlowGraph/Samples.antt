-- ===== src/FlowGraph/Samples.antt =====
-- internal/flowgraph/flowgraph.go: a small graph, and the theorems at it.
use trt_whats.Common.{ℕ, ◌≡◌, [], ◌∷◌, Text, codes, pos, text_eq}
use trt_whats.FlowGraph.{Edge, Node, Graph, build_maps, resolve_edge}
use trt_whats.FlowGraph.Lookup.{resolve_edge-build_maps}

abbrev edge : Text → Text → Text → Edge
edge a b c = record { from = a; to = b; condition = c }

abbrev sample_node : Text → ℕ → Node ℕ
sample_node id t = record {
  id = id;
  type = t;
  label = [];
  position = record { x = 0; y = 0 };
  config = [];
}

-- The id "a" is declared twice, and "a" has two default edges.
abbrev sample : Graph ℕ
sample = record {
  version = pos 2;
  nodes = sample_node (codes "a") 1 ∷ sample_node (codes "b") 2 ∷ sample_node (codes "a") 3 ∷ [];
  edges =
      edge (codes "a") (codes "x") (codes "default")
      ∷ edge (codes "b") (codes "z") (codes "ok")
      ∷ edge (codes "a") (codes "b") (codes "button:1")
      ∷ edge (codes "a") (codes "y") (codes "default")
      ∷ [];
  entry_node = codes "a";
  node_map = [];
  edge_map = [];
}

resolve_edge-build_maps_example :
    resolve_edge (build_maps sample) (codes "a") (codes "button:2") ≡ codes "y"
unfolding text_eq
resolve_edge-build_maps_example = resolve_edge-build_maps sample (codes "a") (codes "button:2")
