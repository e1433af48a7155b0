-- ===== src/Graph/Projection/Select.antt =====
-- The selection of src/req_tracker/graph/projection.py, and the projection that is built.
pub mod Neighborhood
use se_1_rune_agent.Base.{
  ℕ, zero, suc, ◌+◌, ◌*◌, min, max, String, Bool, true, false, not, ◌&&◌, ◌||◌, Option, none, some,
  List, [], ◌∷◌, ◌++◌, ◌==◌, ltb, leb, eqb, select, take, any, length, elem, map, is_some, and_then,
  if◌then◌else◌,
}
use se_1_rune_agent.Base.Dict.{Dict, get, put, has_key, index}
use se_1_rune_agent.Base.Text.{text_leb, strip}
use se_1_rune_agent.Base.Sort.{sort_by}
use se_1_rune_agent.Ontology.{OntologyNode, TraceabilityEdge, Finding}
use se_1_rune_agent.Graph.Chain.{approved, pending, add_neighbor, members}
use se_1_rune_agent.Graph.Projection.{
  GraphViewMode, overview, neighborhood, orphans, pending_only, full, GraphEdgeFilter, all_edges,
  approved_only, pending_edges_only, incoming, outgoing, GraphNodeView, GraphEdgeView,
  edge_nodes_exist, or_else, degree_of, degree_by_node, finding_by_node, RiskTable, risk_of,
  risk_by_node, node_view, edge_view,
}

pub record GraphGroupView : Type 0 where
  pub group_id : String
  pub label : String
  pub node_type : Option String
  pub count : ℕ
  pub orphan_count : ℕ
  pub pending_count : ℕ
  pub finding_count : ℕ

pub record GraphProjectionCounts : Type 0 where
  pub total_nodes : ℕ
  pub visible_nodes : ℕ
  pub approved_edges : ℕ
  pub pending_edges : ℕ
  pub visible_approved_edges : ℕ
  pub visible_pending_edges : ℕ
  pub orphan_nodes : ℕ
  pub findings : ℕ
  pub truncated : Bool

pub record GraphProjection : Type 0 where
  pub mode : GraphViewMode
  pub center_node_id : Option String
  pub hops : ℕ
  pub limit_nodes : ℕ
  pub search_query : Option String
  pub edge_filter : GraphEdgeFilter
  pub nodes : List GraphNodeView
  pub approved_edges : List GraphEdgeView
  pub pending_edges : List GraphEdgeView
  pub edges : List GraphEdgeView
  pub groups : List GraphGroupView
  pub counts : GraphProjectionCounts

-- The tuple of flags of the key of `_sort_nodes`, read as a binary number.
abbrev flags : GraphNodeView → ℕ
flags node =
    (if node.is_orphan then 0 else 4)
    + (if node.risk_level == "critical" || node.risk_level == "high" then 0 else 2)
    + (if node.has_pending_edges then 0 else 1)

abbrev pub view_leb : GraphNodeView → GraphNodeView → Bool
view_leb a b =
    if eqb (flags a) (flags b)
    then (if a.node_type == b.node_type
        then text_leb a.node_id b.node_id
        else text_leb a.node_type b.node_type)
    else ltb (flags a) (flags b)

-- `_sort_nodes`
abbrev pub sort_nodes : List GraphNodeView → List GraphNodeView
sort_nodes = sort_by view_leb

-- `_filter_edges`
unfoldable pub filter_edges :
    List TraceabilityEdge → GraphEdgeFilter → Option String → List TraceabilityEdge
filter_edges edges all_edges center = edges
filter_edges edges approved_only center = edges
filter_edges edges pending_edges_only center = edges
filter_edges edges incoming none = edges
filter_edges edges incoming (some c) =
    if c == "" then edges else select (λ edge. edge.target_node_id == c) edges
filter_edges edges outgoing none = edges
filter_edges edges outgoing (some c) =
    if c == "" then edges else select (λ edge. edge.source_node_id == c) edges

-- `_normalize_search`
unfoldable pub normalize_search : Option String → Option String
normalize_search none = none
normalize_search (some q) = if q == "" then none else if strip q == "" then none else some (strip q)

-- `str.casefold` and the test `needle in value` are Python's.
module _ (casefold : String → String) (occurs : String → String → Bool) where
  unfoldable pub node_matches : GraphNodeView → String → Bool
  node_matches node needle =
      any (λ value. occurs needle (casefold value))
        (node.node_id
          ∷ node.node_type
          ∷ node.name
          ∷ node.description
          ∷ node.project_key
          ∷ or_else "" node.domain
          ∷ node.source_artifact_ids)

  unfoldable pub search_nodes : List GraphNodeView → Option String → List GraphNodeView
  unfolding normalize_search node_matches
  search_nodes nodes search_query = elim (normalize_search search_query) [
    | none ↦ nodes
    | some normalized ↦ select (λ node. node_matches node (casefold normalized)) nodes
  ]

-- `adjacency` of `_neighborhood_ids`
unfoldable pub undirected : Dict (List String) → List TraceabilityEdge → Dict (List String)
unfolding add_neighbor
undirected adjacency [] = adjacency
undirected adjacency (edge ∷ edges) =
    undirected
      (add_neighbor edge.target_node_id edge.source_node_id
        (add_neighbor edge.source_node_id edge.target_node_id adjacency))
      edges

pub record Search : Type 0 where
  pub seen : List String
  pub queue : List (String × ℕ)

-- The inner loop of `_neighborhood_ids`.
unfoldable pub visit : ℕ → List String → Search → Search
visit d [] s = s
visit d (v ∷ vs) s = visit d vs (
    if elem v s.seen then s else record { seen = s.seen ++ v ∷ []; queue = s.queue ++ (v, d) ∷ [] })

abbrev pub leave_or_visit : Dict (List String) → ℕ → String → ℕ → Search → Search
leave_or_visit adjacency hops u d s =
    if leb hops d then s else visit (d + 1) (members (get adjacency u)) s

-- The outer loop; `none` is the end of the fuel.
unfoldable pub search_from :
    Dict (List String) → ℕ → ℕ → List String → List (String × ℕ) → Option (List String)
unfolding visit
search_from adjacency hops fuel seen [] = some seen
search_from adjacency hops zero seen (p ∷ queue) = none
search_from adjacency hops (suc fuel) seen ((u, d) ∷ queue) =
    let s = leave_or_visit adjacency hops u d (record { seen = seen; queue = queue }) in
    search_from adjacency hops fuel s.seen s.queue

abbrev pub ends : List TraceabilityEdge → List String
ends [] = []
ends (edge ∷ edges) = edge.source_node_id ∷ edge.target_node_id ∷ ends edges

-- Two rounds, and one for each end of an edge.
unfoldable pub neighborhood_ids : String → List TraceabilityEdge → ℕ → Option (List String)
unfolding undirected search_from
neighborhood_ids center edges hops =
    search_from (undirected [] edges) hops (suc (suc (length (ends edges)))) (center ∷ [])
      ((center, 0) ∷ [])
