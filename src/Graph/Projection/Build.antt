-- ===== src/Graph/Projection/Build.antt =====
-- `build_graph_projection` of src/req_tracker/graph/projection.py.
pub mod Limits
pub mod Orphans
pub mod Witnesses
use se_1_rune_agent.Base.{
  ℕ, ◌+◌, min, max, String, Bool, true, false, not, ◌&&◌, ◌||◌, Option, none, some, List, [], ◌∷◌,
  ◌++◌, ◌==◌, ltb, leb, eqb, select, take, length, elem, map, truthy, and_then, if◌then◌else◌,
}
use se_1_rune_agent.Base.Dict.{Dict, get, put, has_key, index}
use se_1_rune_agent.Base.Text.{concat, text_leb}
use se_1_rune_agent.Base.Sort.{sort_by}
use se_1_rune_agent.Ontology.{OntologyNode, TraceabilityEdge, Finding}
use se_1_rune_agent.Graph.Chain.{approved, pending}
use se_1_rune_agent.Graph.Projection.{
  GraphViewMode, overview, neighborhood, orphans, pending_only, full, GraphEdgeFilter, all_edges,
  approved_only, pending_edges_only, incoming, outgoing, GraphNodeView, GraphEdgeView,
  edge_nodes_exist, or_else, Degree, degree_of, degree_by_node, finding_by_node, RiskTable, risk_of,
  risk_by_node, node_view, edge_view,
}
use se_1_rune_agent.Graph.Projection.Select.{
  GraphGroupView, GraphProjectionCounts, GraphProjection, sort_nodes, filter_edges,
  normalize_search, search_nodes, neighborhood_ids,
}

-- `grouped` of `_groups`
abbrev add_to_group : GraphNodeView → Dict (List GraphNodeView) → Dict (List GraphNodeView)
add_to_group node grouped =
    put grouped node.node_type (or_else [] (get grouped node.node_type) ++ node ∷ [])

abbrev pub grouped_from : Dict (List GraphNodeView) → List GraphNodeView → Dict (List GraphNodeView)
grouped_from grouped [] = grouped
grouped_from grouped (node ∷ nodes) = grouped_from (add_to_group node grouped) nodes

abbrev total_findings : List GraphNodeView → ℕ
total_findings [] = 0
total_findings (node ∷ nodes) = node.finding_count + total_findings nodes

abbrev group_view : String × List GraphNodeView → GraphGroupView
group_view (node_type, nodes) = record {
  group_id = concat ("group_" ∷ node_type ∷ []);
  label = node_type;
  node_type = some node_type;
  count = length nodes;
  orphan_count = length (select (λ node. node.is_orphan) nodes);
  pending_count = length (select (λ node. node.has_pending_edges) nodes);
  finding_count = total_findings nodes;
}

-- `_groups`
unfoldable pub groups : List GraphNodeView → List GraphGroupView
groups nodes = map group_view (sort_by (λ p q. text_leb p.0 q.0) (grouped_from [] nodes))

abbrev pub is_pending_filter : GraphEdgeFilter → Bool
is_pending_filter pending_edges_only = true
is_pending_filter _ = false

abbrev pub is_approved_filter : GraphEdgeFilter → Bool
is_approved_filter approved_only = true
is_approved_filter _ = false

-- Both ends are among the selected nodes.
abbrev pub within_ids : List String → List TraceabilityEdge → List TraceabilityEdge
within_ids ids = select (λ e. elem e.source_node_id ids && elem e.target_node_id ids)

-- The views of all nodes, with their degrees, findings and risks.
unfoldable pub node_views :
    List OntologyNode
    → List TraceabilityEdge
    → List TraceabilityEdge
    → List Finding
    → List GraphNodeView
unfolding node_view degree_by_node finding_by_node risk_by_node
node_views nodes approved_edges pending_edges findings =
    let degree = degree_by_node approved_edges pending_edges in
    let finding_counts = finding_by_node [] findings in
    let risks = risk_by_node (record { risk = []; rank_by_node = [] }) findings in
    map
      (λ node.
        node_view node (degree_of degree node.node_id) (or_else 0 (get finding_counts node.node_id))
          (risk_of risks node.node_id))
      nodes

module _ (casefold : String → String) (occurs : String → String → Bool) where
  -- `_select_nodes`; `none` is the end of the search's fuel.
  unfoldable pub select_nodes :
      List GraphNodeView
      → List TraceabilityEdge
      → List TraceabilityEdge
      → GraphViewMode
      → Option String
      → ℕ
      → ℕ
      → Option String
      → Option (List GraphNodeView)
  unfolding search_nodes neighborhood_ids
  select_nodes nodes approved_edges pending_edges mode center hops limit_nodes search_query =
      let filtered = search_nodes casefold occurs nodes search_query in
      elim mode [
        | full ↦ some (take limit_nodes (sort_nodes filtered))
        | orphans ↦ some (take limit_nodes (sort_nodes (select (λ node. node.is_orphan) filtered)))
        | pending_only ↦
            some (take limit_nodes (sort_nodes (select (λ node. node.has_pending_edges) filtered)))
        | neighborhood ↦ elim (truthy center) [
          | false ↦ some (take limit_nodes (sort_nodes filtered))
          | true ↦
              and_then (neighborhood_ids (or_else "" center) (approved_edges ++ pending_edges) hops)
                λ ids.
                  some (
                    take limit_nodes (sort_nodes (select (λ node. elem node.node_id ids) filtered)))
        ]
        | overview ↦ some (take limit_nodes (sort_nodes filtered))
      ]

abbrev pub known_edges : List OntologyNode → List TraceabilityEdge → List TraceabilityEdge
known_edges nodes = select (λ e. edge_nodes_exist e (index (λ node. node.node_id) nodes))

-- What is shown once the nodes are selected.
unfoldable pub project :
    List OntologyNode
    → List TraceabilityEdge
    → List TraceabilityEdge
    → List Finding
    → GraphViewMode
    → Option String
    → ℕ
    → ℕ
    → Option String
    → GraphEdgeFilter
    → Dict String
    → List GraphNodeView
    → List GraphNodeView
    → GraphProjection
unfolding edge_view groups filter_edges
project nodes approved_edges pending_edges findings mode center hops limit_nodes search_query
      edge_filter pending_approvals views selected =
    let selected_ids = map (λ node. node.node_id) selected in
    let node_names = map (λ p. (p.0, p.1.name)) (index (λ (n : OntologyNode). n.node_id) nodes) in
    let filtered_approved =
      if is_pending_filter edge_filter
      then []
      else filter_edges (within_ids selected_ids approved_edges) edge_filter center in
    let filtered_pending =
      if is_approved_filter edge_filter
      then []
      else filter_edges (within_ids selected_ids pending_edges) edge_filter center in
    let visible_approved = map (λ e. edge_view e approved node_names none) filtered_approved in
    let visible_pending =
      map (λ e. edge_view e pending node_names (get pending_approvals e.edge_id))
        filtered_pending in
    record {
      mode = mode;
      center_node_id = center;
      hops = hops;
      limit_nodes = limit_nodes;
      search_query = normalize_search search_query;
      edge_filter = edge_filter;
      nodes = selected;
      approved_edges = visible_approved;
      pending_edges = visible_pending;
      edges = visible_approved ++ visible_pending;
      groups = groups views;
      counts = record {
        total_nodes = length views;
        visible_nodes = length selected;
        approved_edges = length approved_edges;
        pending_edges = length pending_edges;
        visible_approved_edges = length visible_approved;
        visible_pending_edges = length visible_pending;
        orphan_nodes = length (select (λ node. node.is_orphan) views);
        findings = length findings;
        truncated = ltb (length selected) (length views);
      };
    }

module _ (casefold : String → String) (occurs : String → String → Bool) where
  unfoldable pub build_graph_projection :
      List OntologyNode
      → List TraceabilityEdge
      → List TraceabilityEdge
      → List Finding
      → GraphViewMode
      → Option String
      → ℕ
      → ℕ
      → Option String
      → GraphEdgeFilter
      → Dict String
      → Option GraphProjection
  unfolding node_views select_nodes project
  build_graph_projection nodes approved_edges pending_edges findings mode center hops limit_nodes
        search_query edge_filter pending_approvals =
      let capped_hops = min (max hops 1) 3 in
      let capped_limit = min (max limit_nodes 1) 500 in
      let approved = known_edges nodes approved_edges in
      let pending = known_edges nodes pending_edges in
      let views = node_views nodes approved pending findings in
      and_then
        (select_nodes casefold occurs views approved pending mode center capped_hops capped_limit
          search_query)
        λ selected. some (
          project nodes approved pending findings mode center capped_hops capped_limit search_query
            edge_filter pending_approvals views selected)
