-- ===== src/Reasoning/Links/Covered.antt =====
-- From a link to its candidate edge.
use Prim.Native.String.{String}
use mathlib.Core.Option.{some-injective}
use se_1_rune_agent.Base.{
  true, ◌==◌, Option, none, some, List, [], ◌∷◌, ◌≡◌, refl, sym, subst, ◌∙◌, arith, elem, map, All,
  ◌⊎◌, OnSome, OnSome-and_then, OnSome-at, Option-cases, Bool-cases, inl, inr, eq_iff,
}
use se_1_rune_agent.Base.Dict.{Dict, get, put, has_key, index, values, get-put}
use se_1_rune_agent.Ontology.{
  EvidenceSpan, OntologyNode, TraceabilityEdge, EdgeRelation, relation_name,
}
use se_1_rune_agent.Adapters.{look_up, RawSourceArtifact}
use se_1_rune_agent.Reasoning.{
  external_id_from_node, Reading, reads, unknown, type_error, relations_of, relation_between,
}
use se_1_rune_agent.Reasoning.Links.Returns.{AllReadable}
use se_1_rune_agent.Reasoning.Links.Sound.{Sound, link_raws-filed}
use se_1_rune_agent.Reasoning.Links.{
  edge_id, linked_edge, add_linked, link_one, link_targets, link_raws, link_edges,
}

-- The artifact is one of those given.
abbrev pub Among : RawSourceArtifact → List RawSourceArtifact → Type 0
Among raw [] = ⊥
Among raw (r ∷ raws) = (r ≡ raw) ⊎ Among raw raws

abbrev pub relation_to : RawSourceArtifact → String → OntologyNode → OntologyNode → Reading
relation_to raw id = relation_between (look_up (relations_of (look_up raw.metadata "relations")) id)

abbrev Lists : String → Dict TraceabilityEdge → Type 0
Lists k d = has_key d k ≡ true

has_key-put :
    (d : Dict TraceabilityEdge) (j k : String) (e : TraceabilityEdge)
    → Lists k d
    → Lists k (put d j e)
has_key-put d j k e h = ground (arith, get-put d j k e)

has_key-put_self :
    (d : Dict TraceabilityEdge) (k : String) (e : TraceabilityEdge) → Lists k (put d k e)
has_key-put_self d k e = ground (arith, get-put d k k e, eq_iff k k)

always : (o : Option (Dict TraceabilityEdge)) → OnSome (λ d. Unit {0}) o
always none = tt
always (some d) = tt

module _ (edge_hash : String → String → String → String) (node_by_external : Dict OntologyNode)
    (evidence : Dict EvidenceSpan) (k : String) where
  add_linked-keeps :
      (raw : RawSourceArtifact) (id : String) (source target : OntologyNode) (r : Reading)
      (e : Option EvidenceSpan) (edges : Dict TraceabilityEdge)
      → Lists k edges
      → OnSome (Lists k) (add_linked edge_hash raw id source target r e edges)
  add_linked-keeps raw id source target type_error e edges h = tt
  add_linked-keeps raw id source target unknown e edges h = h
  add_linked-keeps raw id source target (reads r) none edges h = h
  add_linked-keeps raw id source target (reads r) (some e) edges h =
      has_key-put edges (edge_id edge_hash source.node_id (relation_name r) target.node_id) k
        (linked_edge edge_hash raw id source target r e) h

  link_one-keeps :
      (raw : RawSourceArtifact) (source : OntologyNode) (id : String)
      (edges : Dict TraceabilityEdge)
      → Lists k edges
      → OnSome (Lists k) (link_one edge_hash node_by_external evidence raw source id edges)
  unfolding link_one
  link_one-keeps raw source id edges h = elim (Option-cases (get node_by_external id)) [
    | inl lost ↦ rw (lost, link_one) h
    | inr (target, e) ↦
        rw (e, link_one)
          (add_linked-keeps raw id source target (relation_to raw id source target)
            (get evidence raw.external_id) edges h)
  ]

  link_targets-keeps :
      (raw : RawSourceArtifact) (source : OntologyNode) (ids : List String)
      (edges : Dict TraceabilityEdge)
      → Lists k edges
      → OnSome (Lists k) (link_targets edge_hash node_by_external evidence raw source ids edges)
  unfolding link_targets
  link_targets-keeps raw source [] edges h = h
  link_targets-keeps raw source (id ∷ ids) edges h =
      OnSome-and_then (Lists k) (link_one edge_hash node_by_external evidence raw source id edges) _
        (λ d e.
          link_targets-keeps raw source ids d
            (OnSome-at (Lists k) _ d (link_one-keeps raw source id edges h) e))

  -- The loop goes on from what one artifact left.
  link_raws-step :
      (P : Dict TraceabilityEdge → Type 0) (raw : RawSourceArtifact) (raws : List RawSourceArtifact)
      (edges : Dict TraceabilityEdge)
      → ((source : OntologyNode)
          → get node_by_external raw.external_id ≡ some source
          → OnSome P (link_targets edge_hash node_by_external evidence raw source raw.links edges))
      → (get node_by_external raw.external_id ≡ none → P edges)
      → ((d : Dict TraceabilityEdge)
          → P d
          → OnSome (Lists k) (link_raws edge_hash node_by_external evidence raws d))
      → OnSome (Lists k) (link_raws edge_hash node_by_external evidence (raw ∷ raws) edges)
  unfolding link_raws
  link_raws-step P raw raws edges linked skipped rest =
      elim (Option-cases (get node_by_external raw.external_id)) [
        | inl lost ↦ rw (lost, link_raws) (rest edges (skipped lost))
        | inr (source, e) ↦
            rw (e, link_raws)
              (OnSome-and_then (Lists k)
                (link_targets edge_hash node_by_external evidence raw source raw.links edges) _
                (λ d f. rest d (OnSome-at P _ d (linked source e) f)))
      ]

  link_raws-keeps :
      (raws : List RawSourceArtifact) (edges : Dict TraceabilityEdge)
      → Lists k edges
      → OnSome (Lists k) (link_raws edge_hash node_by_external evidence raws edges)
  link_raws-keeps [] edges h = unfold link_raws in h
  link_raws-keeps (raw ∷ raws) edges h =
      link_raws-step (Lists k) raw raws edges
        (λ source e. link_targets-keeps raw source raw.links edges h) (λ e. h)
        (λ d g. link_raws-keeps raws d g)

module _ (edge_hash : String → String → String → String) (node_by_external : Dict OntologyNode)
    (evidence : Dict EvidenceSpan) (raw : RawSourceArtifact) (source target : OntologyNode)
    (id : String) (r : EdgeRelation) (span : EvidenceSpan)
    (at_source : get node_by_external raw.external_id ≡ some source)
    (at_target : get node_by_external id ≡ some target)
    (reading : relation_to raw id source target ≡ reads r)
    (at_evidence : get evidence raw.external_id ≡ some span) where
  abbrev link_id : String
  link_id = edge_id edge_hash source.node_id (relation_name r) target.node_id

  link_one-adds :
      (edges : Dict TraceabilityEdge)
      → OnSome (Lists link_id) (link_one edge_hash node_by_external evidence raw source id edges)
  unfolding link_one
  link_one-adds edges =
      rw (at_target, link_one)
        (rw (reading, at_evidence)
          (has_key-put_self edges link_id (linked_edge edge_hash raw id source target r span)))

  link_targets-adds :
      (ids : List String) (edges : Dict TraceabilityEdge)
      → elem id ids ≡ true
      → OnSome
          (Lists link_id)
          (link_targets edge_hash node_by_external evidence raw source ids edges)
  unfolding link_targets
  link_targets-adds [] edges h = cc
  link_targets-adds (i ∷ ids) edges h =
      OnSome-and_then (Lists link_id)
        (link_one edge_hash node_by_external evidence raw source i edges) _
        (λ d e. elim (Bool-cases (i == id)) [
          | inl same ↦
              link_targets-keeps edge_hash node_by_external evidence link_id raw source ids d (
                OnSome-at (Lists link_id) _ d (link_one-adds edges) (
                  subst
                    (λ j. link_one edge_hash node_by_external evidence raw source j edges ≡ some d)
                    ((eq_iff i id).0 same) e))
          | inr other ↦ link_targets-adds ids d (ground arith)
        ])

  link_raws-adds :
      (raws : List RawSourceArtifact) (edges : Dict TraceabilityEdge)
      → elem id raw.links ≡ true
      → Among raw raws
      → OnSome (Lists link_id) (link_raws edge_hash node_by_external evidence raws edges)
  link_raws-adds [] edges h among = absurd among
  link_raws-adds (x ∷ raws) edges h (inl same) =
      subst
        (λ y.
          OnSome (Lists link_id) (link_raws edge_hash node_by_external evidence (y ∷ raws) edges))
        (sym same)
        (link_raws-step edge_hash node_by_external evidence link_id (Lists link_id) raw raws edges
          (λ s e.
            subst
              (λ y.
                OnSome (Lists link_id)
                  (link_targets edge_hash node_by_external evidence raw y raw.links edges))
              (some-injective source s (sym at_source ∙ e)) (link_targets-adds raw.links edges h))
          (λ lost. cc (sym at_source ∙ lost))
          (λ d g. link_raws-keeps edge_hash node_by_external evidence link_id raws d g))
  link_raws-adds (x ∷ raws) edges h (inr later) =
      link_raws-step edge_hash node_by_external evidence link_id (λ d. Unit {0}) x raws edges
        (λ s e. always (link_targets edge_hash node_by_external evidence x s x.links edges))
        (λ lost. tt) (λ d g. link_raws-adds raws d h later)

elem-filed :
    (P : TraceabilityEdge → Type 0) (k : String) (d : Dict TraceabilityEdge)
    → All (λ p. (p.1.edge_id ≡ p.0) × P p.1) d
    → Lists k d
    → elem k (map (λ e. e.edge_id) (values d)) ≡ true
unfolding get
elem-filed P k [] h has = has
elem-filed P k ((j, e) ∷ d) h has = rw (h.0.0) (elim (Bool-cases (j == k)) [
  | inl same ↦ rw same refl
  | inr other ↦ rw other (elem-filed P k d h.1 (ground arith))
])

-- If no artifact gives a list or a dict as a relation, then each link that can be read gives a
-- candidate edge: if an artifact links to an external id, both have nodes, the relation between them
-- can be read, and the artifact has evidence, then link_edges returns an edge with the id of that
-- link.
pub link_edges_covers :
    (edge_hash : String → String → String → String) (raws : List RawSourceArtifact)
    (nodes : List OntologyNode) (evidence : Dict EvidenceSpan) (raw : RawSourceArtifact)
    (source target : OntologyNode) (id : String) (r : EdgeRelation) (span : EvidenceSpan)
    → AllReadable raws
    → Among raw raws
    → elem id raw.links ≡ true
    → get (index external_id_from_node nodes) raw.external_id ≡ some source
    → get (index external_id_from_node nodes) id ≡ some target
    → relation_to raw id source target ≡ reads r
    → get evidence raw.external_id ≡ some span
    → (edges : List TraceabilityEdge) × (link_edges edge_hash raws nodes evidence ≡ some edges)
      × (elem
            (edge_id edge_hash source.node_id (relation_name r) target.node_id)
            (map (λ e. e.edge_id) edges)
          ≡ true)
unfolding link_edges
link_edges_covers edge_hash raws nodes evidence raw source target id r span readable among linked
      at_source at_target reading at_evidence =
    let by_external = index external_id_from_node nodes in
    let k = edge_id edge_hash source.node_id (relation_name r) target.node_id in
    let (d, e, filed) = link_raws-filed edge_hash raws nodes evidence readable in
    let has =
      OnSome-at (Lists k) _ d
        (link_raws-adds edge_hash by_external evidence raw source target id r span at_source
          at_target reading at_evidence raws [] linked among)
        e in
    (values d, rw e refl, elem-filed (Sound edge_hash nodes) k d filed has)
