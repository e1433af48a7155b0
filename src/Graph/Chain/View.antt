-- ===== src/Graph/Chain/View.antt =====
-- `build_traceability_chain` of src/req_tracker/graph/chain.py: what the walk is given, and what
-- is shown of the nodes that it found.
pub mod Shown
pub mod Built
pub mod Witnesses
use se_1_rune_agent.Base.{
  ℕ, ◌+◌, min, max, String, Bool, true, false, ◌&&◌, ◌||◌, Option, none, some, List, [], ◌∷◌, ◌++◌,
  ◌==◌, ltb, leb, eqb, length, select, is_some, and_then, if◌then◌else◌, map,
}
use se_1_rune_agent.Base.Dict.{Dict, get, has_key, index}
use se_1_rune_agent.Base.Text.{text_leb}
use se_1_rune_agent.Base.Sort.{sort_by}
use se_1_rune_agent.Ontology.{
  OntologyNode, TraceabilityEdge, relation_name, type_name, approval_name,
}
use se_1_rune_agent.Graph.Chain.{
  GraphChainDirection, GraphChainEdgeStatus, approved, pending, TraceabilityChainNode,
  TraceabilityChainEdge, TraceabilityChain, EdgeRecord, edge_in_project, adjacency_from,
  neighbors_in, walk_chain,
}

-- `_node_view`
unfoldable pub node_view : OntologyNode → ℕ → String → TraceabilityChainNode
node_view node depth center_node_id = record {
  node_id = node.node_id;
  node_type = type_name node.node_type;
  name = node.name;
  description = node.description;
  project_key = node.project_key;
  depth = depth;
  is_center = node.node_id == center_node_id;
}

abbrev pub status_name : GraphChainEdgeStatus → TraceabilityEdge → String
status_name pending edge = "pending"
status_name approved edge = approval_name edge.approval_status

-- `_edge_view`, with the two nodes that the map holds.
abbrev pub edge_view_between :
    TraceabilityEdge
    → GraphChainEdgeStatus
    → Dict String
    → OntologyNode
    → OntologyNode
    → TraceabilityChainEdge
edge_view_between edge status pending_approval_by_edge_id source target = record {
  edge_id = edge.edge_id;
  source_node_id = edge.source_node_id;
  source_node_name = some source.name;
  target_node_id = edge.target_node_id;
  target_node_name = some target.name;
  relation = relation_name edge.relation;
  reasoning = edge.reasoning;
  confidence_score = edge.confidence_score;
  view_status = status;
  approval_status = status_name status edge;
  approval_id = get pending_approval_by_edge_id edge.edge_id;
}

-- `none` is the KeyError of an endpoint that is not in the map.
unfoldable pub edge_view :
    TraceabilityEdge
    → GraphChainEdgeStatus
    → Dict OntologyNode
    → Dict String
    → Option TraceabilityChainEdge
edge_view edge status node_map approvals = and_then (get node_map edge.source_node_id) λ source.
    and_then (get node_map edge.target_node_id)
      λ target. some (edge_view_between edge status approvals source target)

abbrev pub tagged :
    GraphChainEdgeStatus → Dict OntologyNode → List TraceabilityEdge → List EdgeRecord
tagged status node_map edges =
    map (λ edge. (edge, status)) (select (λ edge. edge_in_project edge node_map) edges)

-- The edges between nodes of the project, the pending ones if they are asked for.
unfoldable pub edge_records :
    Dict OntologyNode → List TraceabilityEdge → List TraceabilityEdge → Bool → List EdgeRecord
edge_records node_map approved_edges pending_edges include_pending =
    tagged approved node_map approved_edges
    ++ (if include_pending then tagged pending node_map pending_edges else [])

-- The comprehension `visible_edges`: both ends were found.
unfoldable pub visible_edges :
    Dict ℕ → Dict OntologyNode → Dict String → List EdgeRecord → Option (List TraceabilityChainEdge)
unfolding edge_view
visible_edges selected node_map approvals [] = some []
visible_edges selected node_map approvals ((edge, status) ∷ records) =
    let rest = visible_edges selected node_map approvals records in
    if has_key selected edge.source_node_id && has_key selected edge.target_node_id
    then (and_then (edge_view edge status node_map approvals)
        λ view. and_then rest λ views. some (view ∷ views))
    else rest

-- The comprehension `visible_nodes`, over the nodes found in their order.
unfoldable pub visible_nodes :
    Dict OntologyNode → String → List (String × ℕ) → List TraceabilityChainNode
unfolding node_view
visible_nodes node_map center_node_id [] = []
visible_nodes node_map center_node_id ((node_id, depth) ∷ found) =
    let rest = visible_nodes node_map center_node_id found in
    elim (get node_map node_id) [
      | none ↦ rest
      | some node ↦ node_view node depth center_node_id ∷ rest
    ]

-- The key `(selected_depths[item], item)`
abbrev pub depth_leb : String × ℕ → String × ℕ → Bool
depth_leb (a, d) (b, e) = if eqb d e then text_leb a b else ltb d e

-- The key `(edge.relation, edge.edge_id)`
abbrev pub edge_leb : TraceabilityChainEdge → TraceabilityChainEdge → Bool
edge_leb a b =
    if a.relation == b.relation
    then text_leb a.edge_id b.edge_id
    else text_leb a.relation b.relation

abbrev pub capped_depth : ℕ → ℕ
capped_depth depth = min (max depth 1) 6

abbrev pub capped_limit : ℕ → ℕ
capped_limit limit_nodes = min (max limit_nodes 1) 500

-- The nodes of the project by their ids.
abbrev pub project_nodes : String → List OntologyNode → Dict OntologyNode
project_nodes project_key nodes =
    index (λ node. node.node_id) (select (λ node. node.project_key == project_key) nodes)

-- What is shown of the nodes found.
unfoldable pub show_chain :
    String
    → String
    → GraphChainDirection
    → ℕ
    → Bool
    → ℕ
    → Dict OntologyNode
    → List EdgeRecord
    → Dict String
    → Dict ℕ
    → Option TraceabilityChain
unfolding visible_edges visible_nodes
show_chain project_key center_node_id direction depth include_pending limit_nodes node_map records
      approvals selected =
    and_then (visible_edges selected node_map approvals records) λ edges. some record {
      project_key = project_key;
      center_node_id = center_node_id;
      direction = direction;
      depth = depth;
      include_pending = include_pending;
      nodes = visible_nodes node_map center_node_id (sort_by depth_leb selected);
      edges = sort_by edge_leb edges;
      truncated = leb limit_nodes (length selected);
    }

-- `none` is the end of the walk's fuel or a KeyError.
unfoldable pub build_traceability_chain :
    String
    → String
    → List OntologyNode
    → List TraceabilityEdge
    → List TraceabilityEdge
    → Dict String
    → GraphChainDirection
    → ℕ
    → Bool
    → ℕ
    → Option TraceabilityChain
unfolding edge_records walk_chain neighbors_in adjacency_from show_chain
build_traceability_chain project_key center_node_id nodes approved_edges pending_edges approvals
      direction depth include_pending limit_nodes =
    let node_map = project_nodes project_key nodes in
    let records = edge_records node_map approved_edges pending_edges include_pending in
    and_then
      (walk_chain (neighbors_in (adjacency_from [] records direction)) (capped_depth depth)
        (capped_limit limit_nodes) center_node_id)
      λ selected.
        show_chain project_key center_node_id direction (capped_depth depth) include_pending
          (capped_limit limit_nodes) node_map records approvals selected
