-- ===== src/Graph/Chain.antt =====
-- src/req_tracker/graph/chain.py: the chain of trace links around a node, to a number of hops.
pub mod Ending
pub mod Distance
pub mod Links
pub mod View
use se_1_rune_agent.Base.{
  ℕ, zero, suc, ◌+◌, min, max, String, Bool, true, false, not, ◌&&◌, ◌||◌, Option, none, some, List,
  [], ◌∷◌, ◌++◌, ◌==◌, ltb, leb, eqb, length, select, elem, map, is_some, if◌then◌else◌,
}
use se_1_rune_agent.Base.Dict.{Dict, get, put, keys, has_key, index}
use se_1_rune_agent.Base.Text.{text_leb}
use se_1_rune_agent.Base.Sort.{sort_by}
use se_1_rune_agent.Ontology.{
  OntologyNode, NodeType, TraceabilityEdge, EdgeRelation, relation_name, type_name, approval_name,
}

pub data GraphChainDirection : Type 0 where
  upstream downstream both : GraphChainDirection

pub data GraphChainEdgeStatus : Type 0 where
  approved pending : GraphChainEdgeStatus

pub record TraceabilityChainNode : Type 0 where
  pub node_id : String
  pub node_type : String
  pub name : String
  pub description : String
  pub project_key : String
  pub depth : ℕ
  pub is_center : Bool

pub record TraceabilityChainEdge : Type 0 where
  pub edge_id : String
  pub source_node_id : String
  pub source_node_name : Option String
  pub target_node_id : String
  pub target_node_name : Option String
  pub relation : String
  pub reasoning : String
  pub confidence_score : ℕ
  pub view_status : GraphChainEdgeStatus
  pub approval_status : String
  pub approval_id : Option String

pub record TraceabilityChain : Type 0 where
  pub project_key : String
  pub center_node_id : String
  pub direction : GraphChainDirection
  pub depth : ℕ
  pub include_pending : Bool
  pub nodes : List TraceabilityChainNode
  pub edges : List TraceabilityChainEdge
  pub truncated : Bool

abbrev pub EdgeRecord : Type 0
EdgeRecord = TraceabilityEdge × GraphChainEdgeStatus

-- `_edge_in_project`
abbrev pub edge_in_project : TraceabilityEdge → Dict OntologyNode → Bool
edge_in_project edge node_map =
    has_key node_map edge.source_node_id && has_key node_map edge.target_node_id

abbrev pub goes_down : GraphChainDirection → Bool
goes_down upstream = false
goes_down _ = true

abbrev pub goes_up : GraphChainDirection → Bool
goes_up downstream = false
goes_up _ = true

-- A `defaultdict(set)`; a set is a list without repetitions.
abbrev pub members : Option (List String) → List String
members none = []
members (some xs) = xs

abbrev pub add_member : String → List String → List String
add_member x xs = if elem x xs then xs else xs ++ x ∷ []

unfoldable pub add_neighbor : String → String → Dict (List String) → Dict (List String)
add_neighbor u v adjacency = put adjacency u (add_member v (members (get adjacency u)))

abbrev pub add_edge :
    GraphChainDirection → TraceabilityEdge → Dict (List String) → Dict (List String)
add_edge direction edge adjacency =
    let down =
      if goes_down direction
      then add_neighbor edge.source_node_id edge.target_node_id adjacency
      else adjacency in
    if goes_up direction then add_neighbor edge.target_node_id edge.source_node_id down else down

-- `_adjacency`, from what is there already.
unfoldable pub adjacency_from :
    Dict (List String) → List EdgeRecord → GraphChainDirection → Dict (List String)
unfolding add_neighbor
adjacency_from adjacency [] direction = adjacency
adjacency_from adjacency ((edge, status) ∷ edges) direction =
    adjacency_from (add_edge direction edge adjacency) edges direction

-- `sorted(adjacency.get(node_id, set()))`
unfoldable pub neighbors_in : Dict (List String) → String → List String
neighbors_in adjacency u = sort_by text_leb (members (get adjacency u))

-- The nodes that were found, with their depths, and the queue.
pub record Walk : Type 0 where
  pub selected : Dict ℕ
  pub queue : List (String × ℕ)

abbrev pub is_full : ℕ → Dict ℕ → Bool
is_full limit_nodes selected = leb limit_nodes (length selected)

abbrev pub found : String → ℕ → Walk → Walk
found v d w = record { selected = put w.selected v d; queue = w.queue ++ (v, d) ∷ [] }

-- `_walk_chain`, over the sorted neighbors of each node.
module _ (neighbors : String → List String) (depth limit_nodes : ℕ) where
  -- The inner loop, which breaks once the limit is reached.
  unfoldable pub scan : ℕ → List String → Walk → Walk
  scan d [] w = w
  scan d (v ∷ vs) w = elim (has_key w.selected v) [
    | true ↦ scan d vs w
    | false ↦ elim (is_full limit_nodes (found v d w).selected) [
      | true ↦ found v d w
      | false ↦ scan d vs (found v d w)
    ]
  ]

  unfoldable pub expand : String → ℕ → Walk → Walk
  unfolding scan
  expand u d w = if leb depth d then w else scan (d + 1) (neighbors u) w

  -- The outer loop; `none` is the end of the fuel.
  unfoldable pub walk : ℕ → Dict ℕ → List (String × ℕ) → Option (Dict ℕ)
  unfolding expand
  walk zero selected [] = some selected
  walk zero selected (p ∷ queue) = if is_full limit_nodes selected then some selected else none
  walk (suc fuel) selected [] = some selected
  walk (suc fuel) selected ((u, d) ∷ queue) = elim (is_full limit_nodes selected) [
    | true ↦ some selected
    | false ↦
        let w = expand u d (record { selected = selected; queue = queue }) in
        walk fuel w.selected w.queue
  ]

  -- As many rounds as nodes may be selected.
  unfoldable pub walk_chain : String → Option (Dict ℕ)
  unfolding walk
  walk_chain center_node_id = walk limit_nodes ((center_node_id, 0) ∷ []) ((center_node_id, 0) ∷ [])
