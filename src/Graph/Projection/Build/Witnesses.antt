-- ===== src/Graph/Projection/Build/Witnesses.antt =====
-- Projections of the sample graph.
use se_1_rune_agent.Base.{
  ℕ, String, Bool, true, Option, none, some, List, [], ◌∷◌, ◌++◌, ◌==◌, ◌≡◌, ◌≤◌, refl, length, All,
  map, elem,
}
use se_1_rune_agent.Base.Dict.{get, put, index_into}
use se_1_rune_agent.Base.Sort.{sort_by}
use se_1_rune_agent.Base.Text.{text_leb}
use se_1_rune_agent.Graph.Samples.{nodes, approved_edges, pending_edges, findings}
use se_1_rune_agent.Graph.Chain.{add_neighbor}
use se_1_rune_agent.Graph.Chain.Distance.Layers.{Hops}
use se_1_rune_agent.Graph.Projection.{neighborhood, incoming}
use se_1_rune_agent.Graph.Projection.Select.{GraphProjection, neighborhood_ids}
use se_1_rune_agent.Graph.Projection.Select.Neighborhood.{touching, neighborhood_ids-Hops}
use se_1_rune_agent.Graph.Projection.Build.{build_graph_projection, node_views}
use se_1_rune_agent.Graph.Projection.Build.Orphans.{Faithful, node_views-Faithful}
use se_1_rune_agent.Graph.Projection.Build.Limits.{Joins, build_graph_projection_returns}

-- Texts without capitals, and a search for the whole text.
abbrev same : String → String
same s = s

abbrev whole : String → String → Bool
whole needle value = needle == value

abbrev sample : Option GraphProjection
sample =
    build_graph_projection same whole nodes approved_edges pending_edges findings neighborhood
      (some "req_1") 1 120 none incoming []

abbrev ids_of : Option GraphProjection → List String
ids_of none = []
ids_of (some p) = map (λ node. node.node_id) p.nodes ++ map (λ e. e.edge_id) p.edges

sample_ids : ids_of sample ≡ "req_1" ∷ "des_1" ∷ "req_9" ∷ "edge_1" ∷ "edge_9" ∷ []
unfolding build_graph_projection get put index_into sort_by text_leb add_neighbor
sample_ids = refl

build_graph_projection_returns_example :
    (shown : GraphProjection) × (sample ≡ some shown)
    × (length shown.nodes ≤ 500)
    × All (Joins (map (λ node. node.node_id) shown.nodes)) shown.edges
build_graph_projection_returns_example =
    build_graph_projection_returns same whole nodes approved_edges pending_edges findings
      neighborhood (some "req_1") 1 120 none incoming []

node_views-Faithful_example :
    All
      (Faithful approved_edges pending_edges findings)
      (node_views nodes approved_edges pending_edges findings)
node_views-Faithful_example = node_views-Faithful approved_edges pending_edges findings nodes

neighborhood_ids-Hops_example :
    (ids : List String) × (neighborhood_ids "req_1" approved_edges 1 ≡ some ids)
    × ((v : String)
        → elem v ids ≡ true
        → (n : ℕ) × Hops (touching approved_edges) "req_1" v n × (n ≤ 1))
    × ((v : String) (n : ℕ)
        → Hops (touching approved_edges) "req_1" v n
        → n ≤ 1
        → elem v ids ≡ true)
neighborhood_ids-Hops_example = neighborhood_ids-Hops "req_1" approved_edges 1
