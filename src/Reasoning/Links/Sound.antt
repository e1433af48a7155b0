-- ===== src/Reasoning/Links/Sound.antt =====
-- What candidate edges look like.
use Prim.Native.String.{String}
use se_1_rune_agent.Base.{
  true, false, Option, none, some, List, [], ◌∷◌, ◌≡◌, refl, arith, elem, map, All, All-mono,
  OnSome, OnSome-and_then, OnSome-at, Option-cases, inl, inr, eq_refl,
}
use se_1_rune_agent.Base.Dict.{Dict, get, put, index, index_into, values, Holds, put-Holds, All-put}
use se_1_rune_agent.Ontology.{
  EvidenceSpan, OntologyNode, TraceabilityEdge, relation_name, ApprovalStatus, is_nil,
}
use se_1_rune_agent.Adapters.{RawSourceArtifact}
use se_1_rune_agent.Reasoning.{external_id_from_node, Reading, reads, unknown, type_error}
use se_1_rune_agent.Reasoning.Links.Returns.{AllReadable, link_raws-returns}
use se_1_rune_agent.Reasoning.Links.{
  edge_id, linked_edge, add_linked, link_one, link_targets, link_raws, link_edges,
}

abbrev pub node_ids : List OntologyNode → List String
node_ids = map (λ node. node.node_id)

abbrev pub Known : List OntologyNode → OntologyNode → Type 0
Known nodes node = elem node.node_id (node_ids nodes) ≡ true

All-Known : (nodes : List OntologyNode) → All (Known nodes) nodes
All-Known [] = tt
All-Known (node ∷ nodes) = (
  simp eq_refl,
  All-mono (Known nodes) (Known (node ∷ nodes)) nodes (λ n h. ground arith) (All-Known nodes),
)

index_into-Holds :
    (P : OntologyNode → Type 0) (key : OntologyNode → String) (d : Dict OntologyNode)
    (nodes : List OntologyNode)
    → All P nodes
    → Holds P d
    → Holds P (index_into key d nodes)
unfolding index_into
index_into-Holds P key d [] h k = k
index_into-Holds P key d (node ∷ nodes) h k =
    index_into-Holds P key (put d (key node) node) nodes h.1 (put-Holds P d (key node) node h.0 k)

module _ (edge_hash : String → String → String → String) (nodes : List OntologyNode) where
  -- An edge between nodes, that its class accepts, with the id of its ends and relation.
  abbrev pub Sound : TraceabilityEdge → Type 0
  Sound e =
      (elem e.source_node_id (node_ids nodes) ≡ true)
      × (elem e.target_node_id (node_ids nodes) ≡ true)
      × (e.approval_status ≡ ApprovalStatus.pending)
      × (is_nil e.evidence ≡ false)
      × (e.edge_id ≡ edge_id edge_hash e.source_node_id (relation_name e.relation) e.target_node_id)

  abbrev pub Filed : String × TraceabilityEdge → Type 0
  Filed p = (p.1.edge_id ≡ p.0) × Sound p.1

  abbrev pub AllSound : Dict TraceabilityEdge → Type 0
  AllSound = All Filed

  add_linked-Sound :
      (raw : RawSourceArtifact) (id : String) (source target : OntologyNode) (r : Reading)
      (evidence : Option EvidenceSpan) (edges : Dict TraceabilityEdge)
      → Known nodes source
      → Known nodes target
      → AllSound edges
      → OnSome AllSound (add_linked edge_hash raw id source target r evidence edges)
  add_linked-Sound raw id source target type_error evidence edges s t h = tt
  add_linked-Sound raw id source target unknown evidence edges s t h = h
  add_linked-Sound raw id source target (reads r) none edges s t h = h
  add_linked-Sound raw id source target (reads r) (some e) edges s t h =
      All-put Filed edges (edge_id edge_hash source.node_id (relation_name r) target.node_id)
        (linked_edge edge_hash raw id source target r e) (refl, (s, t, refl, refl, refl)) h

  module _ (node_by_external : Dict OntologyNode) (evidence : Dict EvidenceSpan)
      (known : Holds (Known nodes) node_by_external) where
    link_one-Sound :
        (raw : RawSourceArtifact) (source : OntologyNode) (id : String)
        (edges : Dict TraceabilityEdge)
        → Known nodes source
        → AllSound edges
        → OnSome AllSound (link_one edge_hash node_by_external evidence raw source id edges)
    unfolding link_one
    link_one-Sound raw source id edges s h = elim (Option-cases (get node_by_external id)) [
      | inl lost ↦ rw (lost, link_one) h
      | inr (target, e) ↦
          rw (e, link_one)
            (add_linked-Sound raw id source target _ (get evidence raw.external_id) edges s
              (known id target e) h)
    ]

    link_targets-Sound :
        (raw : RawSourceArtifact) (source : OntologyNode) (ids : List String)
        (edges : Dict TraceabilityEdge)
        → Known nodes source
        → AllSound edges
        → OnSome AllSound (link_targets edge_hash node_by_external evidence raw source ids edges)
    unfolding link_targets
    link_targets-Sound raw source [] edges s h = h
    link_targets-Sound raw source (id ∷ ids) edges s h =
        OnSome-and_then AllSound (link_one edge_hash node_by_external evidence raw source id edges)
          _
          (λ edges' e.
            link_targets-Sound raw source ids edges' s
              (OnSome-at AllSound _ edges' (link_one-Sound raw source id edges s h) e))

    link_raws-Sound :
        (raws : List RawSourceArtifact) (edges : Dict TraceabilityEdge)
        → AllSound edges
        → OnSome AllSound (link_raws edge_hash node_by_external evidence raws edges)
    unfolding link_raws
    link_raws-Sound [] edges h = h
    link_raws-Sound (raw ∷ raws) edges h =
        elim (Option-cases (get node_by_external raw.external_id)) [
          | inl lost ↦ rw (lost, link_raws) (link_raws-Sound raws edges h)
          | inr (source, e) ↦
              rw (e, link_raws)
                (OnSome-and_then AllSound
                  (link_targets edge_hash node_by_external evidence raw source raw.links edges) _
                  (λ edges' f. link_raws-Sound raws edges' (
                    OnSome-at AllSound _ edges'
                      (link_targets-Sound raw source raw.links edges
                        (known raw.external_id source e) h)
                      f)))
        ]

values-All :
    (P : TraceabilityEdge → Type 0) (d : Dict TraceabilityEdge)
    → All (λ p. (p.1.edge_id ≡ p.0) × P p.1) d
    → All P (values d)
values-All P [] h = tt
values-All P ((k, e) ∷ d) h = (h.0.1, values-All P d h.1)

-- The loops return, with each edge filed under its id.
pub link_raws-filed :
    (edge_hash : String → String → String → String) (raws : List RawSourceArtifact)
    (nodes : List OntologyNode) (evidence : Dict EvidenceSpan)
    → AllReadable raws
    → (d : Dict TraceabilityEdge) × (link_raws edge_hash
          (index external_id_from_node nodes)
          evidence
          raws
          []
        ≡ some d)
      × AllSound edge_hash nodes d
unfolding get
link_raws-filed edge_hash raws nodes evidence readable =
    let by_external = index external_id_from_node nodes in
    let known =
      index_into-Holds (Known nodes) external_id_from_node [] nodes (All-Known nodes)
        (λ k v e. cc) in
    let sound = link_raws-Sound edge_hash nodes by_external evidence known raws [] tt in
    elim (Option-cases (link_raws edge_hash by_external evidence raws [])) [
      | inl lost ↦
          absurd (ground (arith, link_raws-returns edge_hash by_external evidence raws [] readable))
      | inr (d, e) ↦ (d, e, OnSome-at (AllSound edge_hash nodes) _ d sound e)
    ]

-- If no artifact gives a list or a dict as a relation, then link_edges returns. Every candidate
-- edge that it creates leads from a node to a node of those given, is pending, carries evidence,
-- and has the id that its ends and relation determine.
pub link_edges-Sound :
    (edge_hash : String → String → String → String) (raws : List RawSourceArtifact)
    (nodes : List OntologyNode) (evidence : Dict EvidenceSpan)
    → AllReadable raws
    → (edges : List TraceabilityEdge) × (link_edges edge_hash raws nodes evidence ≡ some edges)
      × All (Sound edge_hash nodes) edges
unfolding link_edges
link_edges-Sound edge_hash raws nodes evidence readable =
    let (d, e, filed) = link_raws-filed edge_hash raws nodes evidence readable in
    (values d, rw e refl, values-All (Sound edge_hash nodes) d filed)
