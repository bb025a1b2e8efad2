-- ===== src/FlowGraph/Lookup.antt =====
-- internal/flowgraph/flowgraph.go: the indexes that BuildMaps makes, against the lists of nodes
-- and edges they are made from.
use trt_whats.Common.{
  ◌++◌, ◌≡◌, refl, ap, sym, ◌∙◌, inl, inr, List, [], ◌∷◌, Option, none, some, if◌then◌else◌, ◌==◌,
  ==_true, Text, Map, lookup, insert, lookup-insert, select, arith, text_eq_on, Bool-cases,
}
use mathlib.Core.List.{append_assoc, append-nil}
use trt_whats.FlowGraph.{
  Edge, Node, Graph, add_nodes, add_edges, build_maps, node, outgoing_edges, resolve_loop,
  resolve_edge, or_empty, default_condition,
}

-- The last node of a list with an id.
abbrev pub last_node {ℓ} : {T : Type ℓ} → Text → Option (Node T) → List (Node T) → Option (Node T)
last_node id found [] = found
last_node id found (n ∷ ns) = last_node id (if n.id == id then some n else found) ns

-- The first edge of a list with a condition.
abbrev pub first_edge : Text → List Edge → Option Edge
first_edge c [] = none
first_edge c (e ∷ es) = if e.condition == c then some e else first_edge c es

-- The last edge of a list with a condition, or else `found`.
abbrev pub last_edge : Text → Option Edge → List Edge → Option Edge
last_edge c found [] = found
last_edge c found (e ∷ es) = last_edge c (if e.condition == c then some e else found) es

-- Where an edge leads; no edge is the empty id.
abbrev pub target : Option Edge → Text
target none = []
target (some e) = e.to

abbrev pub or_else {ℓ} : {A : Type ℓ} → Option A → Option A → Option A
or_else none b = b
or_else (some a) b = some a

abbrev pub leaving : Text → List Edge → List Edge
leaving from = select (λ e. e.from == from)

lookup-add_edges :
    (from : Text) (m : Map Text (List Edge)) (es : List Edge)
    → or_empty (lookup from (add_edges m es)) ≡ or_empty (lookup from m) ++ leaving from es
unfolding add_edges
lookup-add_edges from m [] = sym (append-nil _)
lookup-add_edges from m (e ∷ es) =
    lookup-add_edges from (insert e.from (or_empty (lookup e.from m) ++ e ∷ []) m) es
    ∙ elim (Bool-cases (e.from == from)) [
      | inl here ↦
          rw (lookup-insert e.from from (or_empty (lookup e.from m) ++ e ∷ []) m, here)
            (rw (==_true e.from from here) (append_assoc (or_empty (lookup from m)) _ _))
      | inr other ↦
          rw (lookup-insert e.from from (or_empty (lookup e.from m) ++ e ∷ []) m, other) refl
    ]

resolve_loop_lem :
    (outcome : Text) (found : Option Edge) (es : List Edge)
    → resolve_loop outcome (target found) es
      ≡ target (or_else (first_edge outcome es) (last_edge default_condition found es))
unfolding resolve_loop
resolve_loop_lem outcome found [] = refl
resolve_loop_lem outcome found (e ∷ es) =
    ground (arith, resolve_loop_lem outcome found es, resolve_loop_lem outcome (some e) es)

module _ {ℓ} {T : Type ℓ} where
  lookup-add_nodes :
      (id : Text) (m : Map Text (Node T)) (ns : List (Node T))
      → lookup id (add_nodes m ns) ≡ last_node id (lookup id m) ns
  unfolding add_nodes
  lookup-add_nodes id m [] = refl
  lookup-add_nodes id m (n ∷ ns) =
      lookup-add_nodes id (insert n.id n m) ns
      ∙ ap (λ o. last_node id o ns) (lookup-insert n.id id n m)

  -- The index finds, for every id, the last node of the graph that carries it, and no node for an
  -- id that no node carries.
  pub node-build_maps :
      (g : Graph T) (id : Text) → node (build_maps g) id ≡ last_node id none g.nodes
  unfolding node build_maps lookup
  node-build_maps g id = lookup-add_nodes id [] g.nodes

  -- The index lists, for every id, the edges that leave it, in the order of the graph's edges.
  pub outgoing_edges-build_maps :
      (g : Graph T) (from : Text) → outgoing_edges (build_maps g) from ≡ leaving from g.edges
  unfolding outgoing_edges build_maps lookup
  outgoing_edges-build_maps g from = lookup-add_edges from [] g.edges

  -- An edge is resolved to the first edge that leaves the node with the outcome for its
  -- condition, or else to the last default edge that leaves it, or else to no node.
  pub resolve_edge-build_maps :
      (g : Graph T) (from outcome : Text)
      → resolve_edge (build_maps g) from outcome
        ≡ target (
            or_else
              (first_edge outcome (leaving from g.edges))
              (last_edge default_condition none (leaving from g.edges)))
  unfolding resolve_edge build_maps lookup
  resolve_edge-build_maps g from outcome =
      rw (lookup-add_edges from [] g.edges) (resolve_loop_lem outcome none (leaving from g.edges))
