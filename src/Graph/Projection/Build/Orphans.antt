-- ===== src/Graph/Projection/Build/Orphans.antt =====
-- What the view of a node says of the edges and the findings.
use se_1_rune_agent.Base.{
  ℕ, ◌+◌, String, Bool, not, ◌||◌, List, [], ◌∷◌, ◌==◌, ◌≡◌, refl, arith, any, All, ltb,
}
use se_1_rune_agent.Base.Dict.{get}
use se_1_rune_agent.Ontology.{OntologyNode, TraceabilityEdge, Finding}
use se_1_rune_agent.Graph.Projection.{
  GraphNodeView, degree_of, degree_by_node, or_else, finding_by_node, risk_of, risk_by_node,
  node_view,
}
use se_1_rune_agent.Graph.Projection.Degrees.{edges_into, edges_from, degree_by_node-counts}
use se_1_rune_agent.Graph.Projection.Risks.{highest_rank, rank_name, risk_by_node-highest}
use se_1_rune_agent.Graph.Projection.Build.{node_views}

abbrev pub is_touched : String → List TraceabilityEdge → Bool
is_touched x = any (λ e. e.source_node_id == x || e.target_node_id == x)

touched-degree :
    (x : String) (edges : List TraceabilityEdge)
    → ltb 0 (edges_into x edges + edges_from x edges) ≡ is_touched x edges
touched-degree x [] = ground arith
touched-degree x (e ∷ edges) = ground (arith, touched-degree x edges)

-- The view of a node: `is_orphan` exactly if no edge touches it, `has_pending_edges` exactly if a
-- pending one does, and the risk of the worst finding that names it.
abbrev pub Faithful :
    List TraceabilityEdge → List TraceabilityEdge → List Finding → GraphNodeView → Type 0
Faithful approved_edges pending_edges findings view =
    (view.is_orphan
      ≡ not (is_touched view.node_id approved_edges || is_touched view.node_id pending_edges))
    × (view.has_pending_edges ≡ is_touched view.node_id pending_edges)
    × (view.risk_level ≡ rank_name (highest_rank view.node_id findings))

module _ (approved_edges pending_edges : List TraceabilityEdge) (findings : List Finding) where
  view-Faithful :
      (node : OntologyNode) (count : ℕ)
      → Faithful approved_edges pending_edges findings (
          node_view node
            (degree_of (degree_by_node approved_edges pending_edges) node.node_id)
            count
            (risk_of
              (risk_by_node (record { risk = []; rank_by_node = [] }) findings)
              node.node_id))
  unfolding node_view
  view-Faithful node count =
      let x = node.node_id in
      rw (degree_by_node-counts x approved_edges pending_edges, risk_by_node-highest x findings)
        (
          ground (arith, touched-degree x approved_edges, touched-degree x pending_edges),
          touched-degree x pending_edges,
          refl,
        )

  -- In the views of all nodes, a node is an orphan exactly if neither an approved nor a pending edge
  -- touches it, it has pending edges exactly if a pending edge touches it, and its risk is named
  -- after the highest severity among the findings that name it.
  pub node_views-Faithful :
      (nodes : List OntologyNode)
      → All
          (Faithful approved_edges pending_edges findings)
          (node_views nodes approved_edges pending_edges findings)
  unfolding node_views
  node_views-Faithful [] = tt
  node_views-Faithful (node ∷ nodes) = (
    view-Faithful node (or_else 0 (get (finding_by_node [] findings) node.node_id)),
    node_views-Faithful nodes,
  )
