-- ===== src/FlowGraph.antt =====
-- internal/flowgraph/flowgraph.go: the flow graph that the chatbot and the IVR engine share.
pub mod Lookup
mod Samples
use trt_whats.Common.{
  ℕ, ◌++◌, List, [], ◌∷◌, Option, none, some, if◌then◌else◌, ◌==◌, Text, codes, Map, lookup, insert,
  ℤ, text_eq_on,
}
use trt_whats.Json.{Data}

pub record Position : Type 0 where
  pub x : ℕ  -- float64 bits
  pub y : ℕ  -- float64 bits

pub record Edge : Type 0 where
  pub from : Text
  pub to : Text
  pub condition : Text

pub record Node {ℓ} (T : Type ℓ) : Type ℓ where
  pub id : Text
  pub type : T
  pub label : Text
  pub position : Position
  pub config : Data

pub record Graph {ℓ} (T : Type ℓ) : Type ℓ where
  pub version : ℤ
  pub nodes : List (Node T)
  pub edges : List Edge
  pub entry_node : Text
  pub node_map : Map Text (Node T)
  pub edge_map : Map Text (List Edge)

abbrev pub default_condition : Text
default_condition = codes "default"

-- A nil slice, read from a map at a missing key, is empty.
abbrev pub or_empty {ℓ} : {A : Type ℓ} → Option (List A) → List A
or_empty none = []
or_empty (some xs) = xs

-- The loop over g.Edges.
add_edges : Map Text (List Edge) → List Edge → Map Text (List Edge)
add_edges m [] = m
add_edges m (e ∷ es) = add_edges (insert e.from (or_empty (lookup e.from m) ++ e ∷ []) m) es

-- The loop of ResolveEdge, `def` being the last default edge's target so far.
resolve_loop : Text → Text → List Edge → Text
resolve_loop outcome def [] = def
resolve_loop outcome def (e ∷ es) =
    if e.condition == outcome
    then e.to
    else resolve_loop outcome (if e.condition == default_condition then e.to else def) es

module _ {ℓ} {T : Type ℓ} where
  -- The loop over g.Nodes: a later node with the same id replaces an earlier one.
  add_nodes : Map Text (Node T) → List (Node T) → Map Text (Node T)
  add_nodes m [] = m
  add_nodes m (n ∷ ns) = add_nodes (insert n.id n m) ns

  unfoldable pub build_maps : Graph T → Graph T
  unfolding add_nodes add_edges
  build_maps g = record g { node_map = add_nodes [] g.nodes; edge_map = add_edges [] g.edges }

  unfoldable pub node : Graph T → Text → Option (Node T)
  node g id = lookup id g.node_map

  unfoldable pub outgoing_edges : Graph T → Text → List Edge
  outgoing_edges g from = or_empty (lookup from g.edge_map)

  unfoldable pub resolve_edge : Graph T → Text → Text → Text
  unfolding resolve_loop
  resolve_edge g from outcome = resolve_loop outcome [] (or_empty (lookup from g.edge_map))
