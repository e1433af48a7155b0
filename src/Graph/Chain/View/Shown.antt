-- ===== src/Graph/Chain/View/Shown.antt =====
-- The nodes and edges that are shown of those found.
use se_1_rune_agent.Base.{
  ℕ, ◌≤◌, String, Bool, true, false, ◌&&◌, none, some, List, [], ◌∷◌, ◌==◌, ◌≡◌, refl, sym, subst,
  arith, leb, length, any, All, All-append, eq_iff, Bool-cases, Option-cases, inl, inr,
}
use se_1_rune_agent.Base.Dict.{Dict, get, has_key, Keyed}
use se_1_rune_agent.Ontology.{OntologyNode, TraceabilityEdge}
use se_1_rune_agent.Graph.Chain.{
  GraphChainEdgeStatus, approved, pending, EdgeRecord, TraceabilityChainEdge, edge_in_project,
}
use se_1_rune_agent.Graph.Chain.View.{
  node_view, edge_view, edge_view_between, tagged, edge_records, visible_edges, visible_nodes,
}

abbrev pub InProject : Dict OntologyNode → EdgeRecord → Type 0
InProject node_map r = edge_in_project r.0 node_map ≡ true

tagged-InProject :
    (status : GraphChainEdgeStatus) (node_map : Dict OntologyNode) (edges : List TraceabilityEdge)
    → All (InProject node_map) (tagged status node_map edges)
tagged-InProject status node_map [] = tt
tagged-InProject status node_map (edge ∷ edges) =
    elim (Bool-cases (edge_in_project edge node_map)) [
      | inl inside ↦ rw inside (inside, tagged-InProject status node_map edges)
      | inr outside ↦ rw outside (tagged-InProject status node_map edges)
    ]

pub edge_records-InProject :
    (node_map : Dict OntologyNode) (approved_edges pending_edges : List TraceabilityEdge)
    (include_pending : Bool)
    → All (InProject node_map) (edge_records node_map approved_edges pending_edges include_pending)
unfolding edge_records
edge_records-InProject node_map a p true =
    All-append (InProject node_map) (tagged approved node_map a) (tagged pending node_map p)
      (tagged-InProject approved node_map a) (tagged-InProject pending node_map p)
edge_records-InProject node_map a p false =
    All-append (InProject node_map) (tagged approved node_map a) []
      (tagged-InProject approved node_map a) tt

-- Both ends of a shown edge were found, and are nodes of the project.
abbrev pub EndsIn : Dict ℕ → Dict OntologyNode → TraceabilityChainEdge → Type 0
EndsIn selected node_map e =
    (has_key selected e.source_node_id ≡ true)
    × (has_key selected e.target_node_id ≡ true)
    × (has_key node_map e.source_node_id ≡ true)
    × (has_key node_map e.target_node_id ≡ true)

edge_view-returns :
    (edge : TraceabilityEdge) (status : GraphChainEdgeStatus) (node_map : Dict OntologyNode)
    (approvals : Dict String)
    → edge_in_project edge node_map ≡ true
    → (view : TraceabilityChainEdge) × (edge_view edge status node_map approvals ≡ some view)
      × (view.source_node_id ≡ edge.source_node_id)
      × (view.target_node_id ≡ edge.target_node_id)
unfolding edge_view
edge_view-returns edge status node_map approvals h =
    elim (Option-cases (get node_map edge.source_node_id)) [
      | inl lost ↦ absurd (ground arith)
      | inr (source, e) ↦ elim (Option-cases (get node_map edge.target_node_id)) [
        | inl lost ↦ absurd (ground arith)
        | inr (target, f) ↦
            (edge_view_between edge status approvals source target, rw e (rw f refl), refl, refl)
      ]
    ]

-- No look-up of an end fails.
pub visible_edges-returns :
    (selected : Dict ℕ) (node_map : Dict OntologyNode) (approvals : Dict String)
    (records : List EdgeRecord)
    → All (InProject node_map) records
    → (edges : List TraceabilityChainEdge) × (visible_edges selected node_map approvals records
        ≡ some edges)
      × All (EndsIn selected node_map) edges
unfolding visible_edges
visible_edges-returns selected node_map approvals [] h = ([], refl, tt)
visible_edges-returns selected node_map approvals ((edge, status) ∷ records) h =
    let (views, e, ends) = visible_edges-returns selected node_map approvals records h.1 in
    let found : Bool =
      has_key selected edge.source_node_id && has_key selected edge.target_node_id in
    let (view, f, at_source, at_target) = edge_view-returns edge status node_map approvals h.0 in
    elim (Bool-cases found) [
      | inl shown ↦ (
        view ∷ views,
        rw shown (rw f (rw e refl)),
        (rw (at_source, at_target) (ground arith), ends),
      )
      | inr hidden ↦ (views, rw hidden e, ends)
    ]

visible_nodes-lost :
    (node_map : Dict OntologyNode) (center id : String) (d : ℕ) (found : List (String × ℕ))
    → get node_map id ≡ none
    → visible_nodes node_map center ((id, d) ∷ found) ≡ visible_nodes node_map center found
unfolding visible_nodes
visible_nodes-lost node_map center id d found e = rw (e, visible_nodes) refl

visible_nodes-known :
    (node_map : Dict OntologyNode) (center id : String) (d : ℕ) (found : List (String × ℕ))
    (node : OntologyNode)
    → get node_map id ≡ some node
    → visible_nodes node_map center ((id, d) ∷ found)
      ≡ (node_view node d center ∷ visible_nodes node_map center found)
unfolding visible_nodes
visible_nodes-known node_map center id d found node e = rw (e, visible_nodes) refl

-- A node that was found at a depth of `n` at most is shown there.
pub any-visible_nodes :
    (node_map : Dict OntologyNode) (center v : String) (n : ℕ) (found : List (String × ℕ))
    → Keyed (λ node. node.node_id) node_map
    → has_key node_map v ≡ true
    → any (λ p. p.0 == v && leb p.1 n) found ≡ true
    → any (λ x. x.node_id == v && leb x.depth n) (visible_nodes node_map center found) ≡ true
unfolding node_view
any-visible_nodes node_map center v n [] keyed known h = absurd (ground arith)
any-visible_nodes node_map center v n ((id, d) ∷ found) keyed known h =
    elim (Option-cases (get node_map id)) [
      | inl lost ↦
          rw (visible_nodes-lost node_map center id d found lost)
            (any-visible_nodes node_map center v n found keyed known (ground (arith, eq_iff id v)))
      | inr (node, at) ↦ rw (visible_nodes-known node_map center id d found node at) (
          ground (
            arith,
            eq_iff id v,
            keyed id node at,
            any-visible_nodes node_map center v n found keyed known,
          ))
    ]

-- What is shown of each node that was found.
pub All-visible_nodes :
    (P : String → ℕ → Type 0) (node_map : Dict OntologyNode) (center : String)
    (found : List (String × ℕ))
    → Keyed (λ node. node.node_id) node_map
    → All (λ p. P p.0 p.1) found
    → All (λ x. P x.node_id x.depth) (visible_nodes node_map center found)
unfolding node_view
All-visible_nodes P node_map center [] keyed h = unfold visible_nodes in tt
All-visible_nodes P node_map center ((id, d) ∷ found) keyed h =
    let rest = All-visible_nodes P node_map center found keyed h.1 in
    elim (Option-cases (get node_map id)) [
      | inl lost ↦ rw (visible_nodes-lost node_map center id d found lost) rest
      | inr (node, at) ↦
          rw (visible_nodes-known node_map center id d found node at)
            (subst (λ i. P i d) (sym (keyed id node at)) h.0, rest)
    ]

pub length-visible_nodes :
    (node_map : Dict OntologyNode) (center : String) (found : List (String × ℕ))
    → length (visible_nodes node_map center found) ≤ length found
unfolding visible_nodes
length-visible_nodes node_map center [] = omega arith
length-visible_nodes node_map center ((id, d) ∷ found) =
    ground (arith, length-visible_nodes node_map center found)

pub any-get :
    (selected : Dict ℕ) (v : String) (n d : ℕ)
    → get selected v ≡ some d
    → d ≤ n
    → any (λ p. p.0 == v && leb p.1 n) selected ≡ true
unfolding get
any-get [] v n d h le = cc
any-get ((u, e) ∷ selected) v n d h le = ground (arith, any-get selected v n d)
