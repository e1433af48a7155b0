-- ===== src/Graph/Chain/View/Built.antt =====
-- The chain that is built: its nodes, its edges and their depths.
use se_1_rune_agent.Base.{
  ℕ, ◌≤◌, String, Bool, true, false, ◌&&◌, Option, some, List, [], ◌∷◌, ◌==◌, ◌≡◌, refl, sym, ◌∙◌,
  arith, leb, length, any, All, All-mono, Option-cases, inl, inr,
}
use se_1_rune_agent.Base.Dict.{Dict, get, has_key, Keyed, index_into-Keyed, empty-Keyed}
use se_1_rune_agent.Base.Sort.{sort_by, any-sort_by, All-sort_by, length-sort_by}
use se_1_rune_agent.Ontology.{OntologyNode, TraceabilityEdge}
use se_1_rune_agent.Graph.Chain.{
  GraphChainDirection, EdgeRecord, TraceabilityChain, TraceabilityChainNode, TraceabilityChainEdge,
  adjacency_from, neighbors_in,
}
use se_1_rune_agent.Graph.Chain.Distance.Layers.{Hops, Hops-map, near}
use se_1_rune_agent.Graph.Chain.Distance.Reached.{Finds, walk_chain-Finds}
use se_1_rune_agent.Graph.Chain.Links.{linked, elem-neighbors_in}
use se_1_rune_agent.Graph.Chain.View.{
  edge_records, visible_nodes, show_chain, depth_leb, edge_leb, project_nodes, capped_depth,
  capped_limit, build_traceability_chain,
}
use se_1_rune_agent.Graph.Chain.View.Shown.{
  edge_records-InProject, visible_edges-returns, any-visible_nodes, All-visible_nodes,
  length-visible_nodes, any-get, EndsIn,
}

abbrev pub has_node : String → List TraceabilityChainNode → Bool
has_node v = any (λ x. x.node_id == v)

-- A node shown at a depth of `n` at most.
abbrev pub has_node_within : String → ℕ → List TraceabilityChainNode → Bool
has_node_within v n = any (λ x. x.node_id == v && leb x.depth n)

any-weaken :
    (v : String) (n : ℕ) (nodes : List TraceabilityChainNode)
    → has_node_within v n nodes ≡ true
    → has_node v nodes ≡ true
any-weaken v n [] h = h
any-weaken v n (x ∷ xs) h = ground (arith, any-weaken v n xs)

-- The links of the project's graph that the chain follows.
abbrev pub project_records :
    String
    → List OntologyNode
    → List TraceabilityEdge
    → List TraceabilityEdge
    → Bool
    → List EdgeRecord
project_records project_key nodes = edge_records (project_nodes project_key nodes)

module _ (project_key center : String) (nodes : List OntologyNode)
    (approved_edges pending_edges : List TraceabilityEdge) (approvals : Dict String)
    (direction : GraphChainDirection) (depth : ℕ) (include_pending : Bool) (limit_nodes : ℕ) where
  abbrev node_map : Dict OntologyNode
  node_map = project_nodes project_key nodes

  abbrev records : List EdgeRecord
  records = project_records project_key nodes approved_edges pending_edges include_pending

  abbrev pub built : Option TraceabilityChain
  built =
      build_traceability_chain project_key center nodes approved_edges pending_edges approvals
        direction depth include_pending limit_nodes

  keyed : Keyed (λ node. node.node_id) node_map
  keyed = index_into-Keyed _ [] _ (empty-Keyed _)

  -- What holds of the chain.
  record Shows (chain : TraceabilityChain) : Type 0 where
    size : length chain.nodes ≤ capped_limit limit_nodes
    joined :
        All
          (λ e.
            (has_node e.source_node_id chain.nodes ≡ true)
            × (has_node e.target_node_id chain.nodes ≡ true))
          chain.edges
    sound :
        All
          (λ x.
            Hops (linked direction records) center x.node_id x.depth
            × (x.depth ≤ capped_depth depth))
          chain.nodes
    complete :
        chain.truncated ≡ false
        → (v : String) (n : ℕ) → Hops (linked direction records) center v n
        → n ≤ capped_depth depth
        → has_key node_map v ≡ true
        → has_node_within v n chain.nodes ≡ true

  abbrev nearby : String → List String
  nearby = neighbors_in (adjacency_from [] records direction)

  to_links :
      {v : String} {n : ℕ}
      → Hops (near nearby) center v n
      → Hops (linked direction records) center v n
  to_links = Hops-map (near nearby) _ center λ u v. elem-neighbors_in direction records u v

  from_links :
      {v : String} {n : ℕ}
      → Hops (linked direction records) center v n
      → Hops (near nearby) center v n
  from_links = Hops-map _ (near nearby) center λ u v. sym (elem-neighbors_in direction records u v)

  module _ (selected : Dict ℕ)
      (finds : Finds nearby center (capped_depth depth) (capped_limit limit_nodes) selected) where
    abbrev shown : List TraceabilityChainNode
    shown = visible_nodes node_map center (sort_by depth_leb selected)

    shown_within :
        (v : String) (n d : ℕ)
        → get selected v ≡ some d
        → d ≤ n
        → has_key node_map v ≡ true
        → has_node_within v n shown ≡ true
    shown_within v n d h le known =
        any-visible_nodes node_map center v n (sort_by depth_leb selected) keyed known (
          any-sort_by depth_leb (λ p. p.0 == v && leb p.1 n) selected ∙ any-get selected v n d h le)

    shown_end :
        (v : String)
        → has_key selected v ≡ true
        → has_key node_map v ≡ true
        → has_node v shown ≡ true
    shown_end v found known = elim (Option-cases (get selected v)) [
      | inl e ↦ cc
      | inr (d, e) ↦ any-weaken v d shown (shown_within v d d e (omega arith) known)
    ]

    abbrev JoinsShown : TraceabilityChainEdge → Type 0
    JoinsShown e =
        (has_node e.source_node_id shown ≡ true) × (has_node e.target_node_id shown ≡ true)

    showing :
        (chain : TraceabilityChain) × (show_chain project_key center direction
            (capped_depth depth)
            include_pending
            (capped_limit limit_nodes)
            node_map
            records
            approvals
            selected
          ≡ some chain)
        × (length selected ≤ capped_limit limit_nodes → Shows chain)
    unfolding show_chain
    showing =
        let (edges, e, ends) =
          visible_edges-returns selected node_map approvals records
            (edge_records-InProject node_map approved_edges pending_edges include_pending) in
        let chain : TraceabilityChain = record {
          project_key = project_key;
          center_node_id = center;
          direction = direction;
          depth = capped_depth depth;
          include_pending = include_pending;
          nodes = shown;
          edges = sort_by edge_leb edges;
          truncated = leb (capped_limit limit_nodes) (length selected);
        } in
        (
          chain,
          rw e refl,
          λ fits. record {
            size = omega (
              arith,
              length-visible_nodes node_map center (sort_by depth_leb selected),
              length-sort_by depth_leb selected,
            );
            joined = All-sort_by edge_leb JoinsShown edges (
                All-mono (EndsIn selected node_map) JoinsShown edges
                  (λ x h. (shown_end x.source_node_id h.0 h.2, shown_end x.target_node_id h.1 h.3))
                  ends);
            sound =
                All-visible_nodes
                  (λ v d. Hops (linked direction records) center v d × (d ≤ capped_depth depth))
                  node_map center (sort_by depth_leb selected) keyed
                  (All-sort_by depth_leb
                    (λ p.
                      Hops (linked direction records) center p.0 p.1 × (p.1 ≤ capped_depth depth))
                    selected
                    (All-mono (λ p. Hops (near nearby) center p.0 p.1 × (p.1 ≤ capped_depth depth))
                      (λ p.
                        Hops (linked direction records) center p.0 p.1 × (p.1 ≤ capped_depth depth))
                      selected (λ p h. (to_links h.0, h.1)) finds.entries));
            complete = λ whole v n walked le known.
                let (d, at, least) = finds.complete (ground arith) v n (from_links walked) le in
                shown_within v n d at least known;
          },
        )

  built-Shows : (chain : TraceabilityChain) × (built ≡ some chain) × Shows chain
  unfolding build_traceability_chain
  built-Shows =
      let (selected, e, size, finds) =
        walk_chain-Finds nearby center (capped_depth depth) (capped_limit limit_nodes)
          (ground arith) in
      let (chain, f, shows) = showing selected finds in (chain, rw e f, shows size)

  -- A chain is built for every input: the walk ends, no look-up of an edge's end fails, and at most
  -- 500 nodes are shown.
  pub chain_returns :
      (chain : TraceabilityChain) × (built ≡ some chain) × (length chain.nodes ≤ 500)
  chain_returns = let (chain, e, shows) = built-Shows in (chain, e, omega (arith, shows.size))

  -- A chain is built, and both ends of each of its edges are among its nodes.
  pub chain-edges_join :
      (chain : TraceabilityChain) × (built ≡ some chain)
      × All
          (λ e.
            (has_node e.source_node_id chain.nodes ≡ true)
            × (has_node e.target_node_id chain.nodes ≡ true))
          chain.edges
  chain-edges_join = let (chain, e, shows) = built-Shows in (chain, e, shows.joined)

  -- A chain is built. Each of its nodes has a walk from the center along the project's links, read
  -- in the direction, of as many links as its depth, which is within the capped depth. If the chain
  -- is not marked as truncated, then every node of the project that a walk of `n` links leads to,
  -- `n` within the capped depth, is among its nodes at a depth of `n` at most: a depth is a
  -- distance.
  pub chain-nodes_distances :
      (chain : TraceabilityChain) × (built ≡ some chain)
      × All
          (λ x.
            Hops
              (linked direction
                (project_records project_key nodes approved_edges pending_edges include_pending))
              center
              x.node_id
              x.depth
            × (x.depth ≤ capped_depth depth))
          chain.nodes
      × (chain.truncated ≡ false
          → (v : String) (n : ℕ)
          → Hops
              (linked direction
                (project_records project_key nodes approved_edges pending_edges include_pending))
              center
              v
              n
          → n ≤ capped_depth depth
          → has_key (project_nodes project_key nodes) v ≡ true
          → has_node_within v n chain.nodes ≡ true)
  chain-nodes_distances =
      let (chain, e, shows) = built-Shows in (chain, e, shows.sound, shows.complete)
