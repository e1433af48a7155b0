-- ===== src/Graph/Projection/Build/Limits.antt =====
-- The selected nodes and the shown edges of a projection.
use se_1_rune_agent.Base.{
  ℕ, ◌≤◌, min, max, String, Bool, true, false, ◌&&◌, Option, none, some, List, [], ◌∷◌, ◌++◌, ◌==◌,
  ◌≡◌, refl, arith, length, length-take, take, select, elem, map, truthy, All, All-append,
  Bool-cases, inl, inr, if◌then◌else◌,
}
use se_1_rune_agent.Base.Dict.{Dict, get}
use se_1_rune_agent.Ontology.{OntologyNode, TraceabilityEdge, Finding}
use se_1_rune_agent.Graph.Chain.{GraphChainEdgeStatus, approved, pending}
use se_1_rune_agent.Graph.Projection.{
  GraphViewMode, overview, neighborhood, orphans, pending_only, full, GraphEdgeFilter, all_edges,
  approved_only, pending_edges_only, incoming, outgoing, GraphNodeView, GraphEdgeView, edge_view,
  or_else,
}
use se_1_rune_agent.Graph.Projection.Select.{
  GraphProjection, sort_nodes, filter_edges, search_nodes,
}
use se_1_rune_agent.Graph.Projection.Select.Neighborhood.{neighborhood_ids-Hops}
use se_1_rune_agent.Graph.Projection.Build.{
  within_ids, select_nodes, project, build_graph_projection, known_edges, node_views,
  is_pending_filter, is_approved_filter,
}

All-select :
    {A : Type 0} (P : A → Type 0) (p : A → Bool) (xs : List A) → All P xs → All P (select p xs)
All-select P p [] h = tt
All-select P p (x ∷ xs) h = elim (Bool-cases (p x)) [
  | inl keep ↦ rw keep (h.0, All-select P p xs h.1)
  | inr drop ↦ rw drop (All-select P p xs h.1)
]

All-map :
    {A B : Type 0} (P : A → Type 0) (Q : B → Type 0) (f : A → B) (xs : List A)
    → ((x : A) → P x → Q (f x))
    → All P xs
    → All Q (map f xs)
All-map P Q f [] g h = tt
All-map P Q f (x ∷ xs) g h = (g x h.0, All-map P Q f xs g h.1)

filter_edges-All :
    (P : TraceabilityEdge → Type 0) (edges : List TraceabilityEdge) (edge_filter : GraphEdgeFilter)
    (center : Option String)
    → All P edges
    → All P (filter_edges edges edge_filter center)
unfolding filter_edges
filter_edges-All P edges all_edges center h = h
filter_edges-All P edges approved_only center h = h
filter_edges-All P edges pending_edges_only center h = h
filter_edges-All P edges incoming none h = h
filter_edges-All P edges outgoing none h = h
filter_edges-All P edges incoming (some c) h = elim (Bool-cases (c == "")) [
  | inl blank ↦ rw blank h
  | inr given ↦ rw given (All-select P (λ e. e.target_node_id == c) edges h)
]
filter_edges-All P edges outgoing (some c) h = elim (Bool-cases (c == "")) [
  | inl blank ↦ rw blank h
  | inr given ↦ rw given (All-select P (λ e. e.source_node_id == c) edges h)
]

-- Both ends of the edge are among the ids.
abbrev EndsAmong : List String → TraceabilityEdge → Type 0
EndsAmong ids e = (elem e.source_node_id ids ≡ true) × (elem e.target_node_id ids ≡ true)

abbrev pub Joins : List String → GraphEdgeView → Type 0
Joins ids e = (elem e.source_node_id ids ≡ true) × (elem e.target_node_id ids ≡ true)

within_ids-All :
    (ids : List String) (edges : List TraceabilityEdge) → All (EndsAmong ids) (within_ids ids edges)
within_ids-All ids [] = tt
within_ids-All ids (e ∷ edges) =
    elim (Bool-cases (elem e.source_node_id ids && elem e.target_node_id ids)) [
      | inl inside ↦ rw inside ((ground arith, ground arith), within_ids-All ids edges)
      | inr outside ↦ rw outside (within_ids-All ids edges)
    ]

views-Joins :
    (ids : List String) (status : GraphChainEdgeStatus) (names : Dict String)
    (approval : TraceabilityEdge → Option String) (edges : List TraceabilityEdge)
    → All (EndsAmong ids) edges
    → All (Joins ids) (map (λ e. edge_view e status names (approval e)) edges)
unfolding edge_view
views-Joins ids status names approval edges h =
    All-map (EndsAmong ids) (Joins ids) (λ e. edge_view e status names (approval e)) edges
      (λ e k. k) h

if_empty-All :
    (P : TraceabilityEdge → Type 0) (b : Bool) (edges : List TraceabilityEdge)
    → All P edges
    → All P (if b then [] else edges)
if_empty-All P true edges h = tt
if_empty-All P false edges h = h

length-take-le : (n : ℕ) (nodes : List GraphNodeView) → length (take n nodes) ≤ n
length-take-le n nodes = omega (arith, length-take n nodes)

module _ (casefold : String → String) (occurs : String → String → Bool) where
  -- A selection is made in every mode, and is within the limit.
  select_nodes-returns :
      (nodes : List GraphNodeView) (approved_edges pending_edges : List TraceabilityEdge)
      (mode : GraphViewMode) (center : Option String) (hops limit : ℕ) (query : Option String)
      → (selected : List GraphNodeView) × (select_nodes casefold occurs nodes approved_edges
            pending_edges mode center hops limit query
          ≡ some selected)
        × (length selected ≤ limit)
  unfolding select_nodes
  select_nodes-returns nodes a p full center hops limit query = (_, refl, length-take-le limit _)
  select_nodes-returns nodes a p orphans center hops limit query = (_, refl, length-take-le limit _)
  select_nodes-returns nodes a p pending_only center hops limit query =
      (_, refl, length-take-le limit _)
  select_nodes-returns nodes a p overview center hops limit query =
      (_, refl, length-take-le limit _)
  select_nodes-returns nodes a p neighborhood center hops limit query =
      elim (Bool-cases (truthy center)) [
        | inr no_center ↦ (
          take limit (sort_nodes (search_nodes casefold occurs nodes query)),
          rw (no_center, select_nodes) refl,
          length-take-le limit (sort_nodes (search_nodes casefold occurs nodes query)),
        )
        | inl given ↦
            let (ids, e, sound, complete) =
              neighborhood_ids-Hops (or_else "" center) (a ++ p) hops in
            (
              take limit (
                  sort_nodes (
                    select (λ node. elem node.node_id ids)
                      (search_nodes casefold occurs nodes query))),
              rw (given, select_nodes) (rw e refl),
              length-take-le limit _,
            )
      ]

  -- A projection is built for every input. It shows at most 500 nodes, and both ends of each of its
  -- edges, approved or pending, are among the nodes that it shows.
  pub build_graph_projection_returns :
      (nodes : List OntologyNode) (approved_edges pending_edges : List TraceabilityEdge)
      (findings : List Finding) (mode : GraphViewMode) (center : Option String) (hops limit : ℕ)
      (query : Option String) (edge_filter : GraphEdgeFilter) (approvals : Dict String)
      → (shown : GraphProjection) × (build_graph_projection casefold occurs nodes approved_edges
            pending_edges findings mode center hops limit query edge_filter approvals
          ≡ some shown)
        × (length shown.nodes ≤ 500)
        × All (Joins (map (λ node. node.node_id) shown.nodes)) shown.edges
  unfolding build_graph_projection project
  build_graph_projection_returns nodes approved_edges pending_edges findings mode center hops limit
        query edge_filter approvals =
      let a = known_edges nodes approved_edges in
      let p = known_edges nodes pending_edges in
      let views = node_views nodes a p findings in
      let (selected, e, size) =
        select_nodes-returns views a p mode center (min (max hops 1) 3) (min (max limit 1) 500)
          query in
      let ids = map (λ (node : GraphNodeView). node.node_id) selected in
      (
        project nodes a p findings mode center (min (max hops 1) 3) (min (max limit 1) 500) query
            edge_filter approvals views selected,
        rw e refl,
        omega (arith, size),
        All-append (Joins ids) _ _
            (views-Joins ids approved _ (λ e. none) _
              (if_empty-All (EndsAmong ids) (is_pending_filter edge_filter) _
                (filter_edges-All (EndsAmong ids) _ edge_filter center (within_ids-All ids a))))
            (views-Joins ids pending _ (λ e. get approvals e.edge_id) _
              (if_empty-All (EndsAmong ids) (is_approved_filter edge_filter) _
                (filter_edges-All (EndsAmong ids) _ edge_filter center (within_ids-All ids p)))),
      )
