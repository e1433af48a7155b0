-- ===== src/Reasoning/Links.antt =====
-- `link_edges` of src/req_tracker/reasoning/linking.py.
pub mod Returns
pub mod Sound
pub mod Covered
use Prim.Native.String.{String}
use se_1_rune_agent.Base.{
  ℕ, Bool, true, false, Option, none, some, List, [], ◌∷◌, and_then, if◌then◌else◌,
}
use se_1_rune_agent.Base.Dict.{Dict, get, put, index, index_into, values}
use se_1_rune_agent.Base.Text.{concat, head_of}
use se_1_rune_agent.Ontology.{
  EvidenceSpan, OntologyNode, TraceabilityEdge, EdgeRelation, relation_name, ApprovalStatus,
}
use se_1_rune_agent.Adapters.{Entries, look_up, RawSourceArtifact}
use se_1_rune_agent.Reasoning.{
  external_id_from_node, Reading, reads, unknown, type_error, relations_of, relation_between,
  is_inferred_relation, default_relation,
}

module _ (edge_hash : String → String → String → String) where
  -- `edge_id`
  unfoldable pub edge_id : String → String → String → String
  unfolding concat head_of
  edge_id source_node_id relation target_node_id =
      concat ("edge_" ∷ head_of 16 (edge_hash source_node_id relation target_node_id) ∷ [])

  abbrev pub linked_edge :
      RawSourceArtifact
      → String
      → OntologyNode
      → OntologyNode
      → EdgeRelation
      → EvidenceSpan
      → TraceabilityEdge
  linked_edge raw target_external_id source target r evidence = record {
    edge_id = edge_id source.node_id (relation_name r) target.node_id;
    source_node_id = source.node_id;
    target_node_id = target.node_id;
    relation = r;
    reasoning =
        concat ("Source link from " ∷ raw.external_id ∷ " to " ∷ target_external_id ∷ "." ∷ []);
    evidence = evidence ∷ [];
    is_inferred = is_inferred_relation r;
    confidence_score = 80;
    approval_status = ApprovalStatus.pending;
    approved_by = none;
    approved_at = none;
    version = 1;
  }

  abbrev pub add_linked :
      RawSourceArtifact
      → String
      → OntologyNode
      → OntologyNode
      → Reading
      → Option EvidenceSpan
      → Dict TraceabilityEdge
      → Option (Dict TraceabilityEdge)
  add_linked raw id source target type_error evidence edges = none
  add_linked raw id source target unknown evidence edges = some edges
  add_linked raw id source target (reads r) none edges = some edges
  add_linked raw id source target (reads r) (some e) edges =
      let edge = linked_edge raw id source target r e in some (put edges edge.edge_id edge)

  module _ (node_by_external : Dict OntologyNode)
      (evidence_by_external_id : Dict EvidenceSpan) where
    -- The body of the loop over `raw.links`; `none` is a TypeError.
    unfoldable pub link_one :
        RawSourceArtifact
        → OntologyNode
        → String
        → Dict TraceabilityEdge
        → Option (Dict TraceabilityEdge)
    unfolding default_relation
    link_one raw source target_external_id edges = elim (get node_by_external target_external_id) [
      | none ↦ some edges
      | some target ↦
          add_linked raw target_external_id source target
            (relation_between
              (look_up (relations_of (look_up raw.metadata "relations")) target_external_id) source
              target)
            (get evidence_by_external_id raw.external_id) edges
    ]

    unfoldable pub link_targets :
        RawSourceArtifact
        → OntologyNode
        → List String
        → Dict TraceabilityEdge
        → Option (Dict TraceabilityEdge)
    unfolding link_one
    link_targets raw source [] edges = some edges
    link_targets raw source (id ∷ ids) edges =
        and_then (link_one raw source id edges) λ edges'. link_targets raw source ids edges'

    -- The outer loop.
    unfoldable pub link_raws :
        List RawSourceArtifact → Dict TraceabilityEdge → Option (Dict TraceabilityEdge)
    unfolding link_targets
    link_raws [] edges = some edges
    link_raws (raw ∷ raws) edges =
        and_then
          (elim (get node_by_external raw.external_id) [
            | none ↦ some edges
            | some source ↦ link_targets raw source raw.links edges
          ])
          λ edges'. link_raws raws edges'

  unfoldable pub link_edges :
      List RawSourceArtifact
      → List OntologyNode
      → Dict EvidenceSpan
      → Option (List TraceabilityEdge)
  unfolding link_raws external_id_from_node
  link_edges raws nodes evidence_by_external_id =
      and_then (link_raws (index external_id_from_node nodes) evidence_by_external_id raws [])
        λ edges. some (values edges)
