-- ===== src/Graph/Chain/View/Witnesses.antt =====
-- A chain of three nodes, and a node of another project.
use se_1_rune_agent.Base.{
  ℕ, String, Bool, true, false, Option, none, some, List, [], ◌∷◌, ◌≡◌, ◌≤◌, refl, All, map,
}
use se_1_rune_agent.Base.Dict.{get, put, index_into, has_key}
use se_1_rune_agent.Base.Text.{text_leb}
use se_1_rune_agent.Base.Sort.{sort_by}
use se_1_rune_agent.Graph.Chain.{both, TraceabilityChain, add_neighbor}
use se_1_rune_agent.Graph.Samples.{nodes, approved_edges, pending_edges}
use se_1_rune_agent.Graph.Chain.Distance.Layers.{Hops}
use se_1_rune_agent.Graph.Chain.Links.{linked}
use se_1_rune_agent.Graph.Chain.View.{project_nodes, build_traceability_chain, capped_depth}
use se_1_rune_agent.Graph.Chain.View.Built.{
  project_records, built, has_node, has_node_within, chain-edges_join, chain-nodes_distances,
}

abbrev sample : Option TraceabilityChain
sample = built "SYS" "req_1" nodes approved_edges pending_edges [] both 9 true 200

abbrev depths : Option TraceabilityChain → List (String × ℕ)
depths none = []
depths (some c) = map (λ x. (x.node_id, x.depth)) c.nodes

sample-depths : depths sample ≡ ("req_1", 0) ∷ ("des_1", 1) ∷ ("ver_1", 2) ∷ []
unfolding build_traceability_chain text_leb sort_by add_neighbor get index_into put
sample-depths = refl

chain-edges_join_example :
    (chain : TraceabilityChain) × (sample ≡ some chain)
    × All
        (λ e.
          (has_node e.source_node_id chain.nodes ≡ true)
          × (has_node e.target_node_id chain.nodes ≡ true))
        chain.edges
chain-edges_join_example =
    chain-edges_join "SYS" "req_1" nodes approved_edges pending_edges [] both 9 true 200

abbrev sample_linked : String → String → Bool
sample_linked = linked both (project_records "SYS" nodes approved_edges pending_edges true)

chain-nodes_distances_example :
    (chain : TraceabilityChain) × (sample ≡ some chain)
    × All
        (λ x. Hops sample_linked "req_1" x.node_id x.depth × (x.depth ≤ capped_depth 9))
        chain.nodes
    × (chain.truncated ≡ false
        → (v : String) (n : ℕ) → Hops sample_linked "req_1" v n
        → n ≤ capped_depth 9
        → has_key (project_nodes "SYS" nodes) v ≡ true
        → has_node_within v n chain.nodes ≡ true)
chain-nodes_distances_example =
    chain-nodes_distances "SYS" "req_1" nodes approved_edges pending_edges [] both 9 true 200
