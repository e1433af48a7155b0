-- ===== src/Reasoning/Extraction/Names.antt =====
-- An extracted node and the external id of its artifact.
use mathlib.Core.Option.{some-injective}
use Prim.Native.String.{String}
use se_1_rune_agent.Base.{
  Bool, true, false, Option, none, some, ◌==◌, ◌≡◌, refl, subst, arith, and_then, if◌then◌else◌,
}
use se_1_rune_agent.Ontology.{EvidenceSpan, SourceArtifact, OntologyNode, NodeType}
use se_1_rune_agent.Adapters.{Metadata, look_up, RawSourceArtifact}
use se_1_rune_agent.Reasoning.{external_id_from_node}
use se_1_rune_agent.Reasoning.Ids.{lacks, external_id-node_id}
use se_1_rune_agent.Reasoning.Extraction.{node_type_of, node_with, extract_node}

module _ (lower : String → String) (occurs : String → String → Bool) (truth : Metadata → Bool)
    (raw : RawSourceArtifact) (artifact : SourceArtifact) (evidence : EvidenceSpan) where
  extracted :
      (o : Option NodeType) (b : Bool) (node : OntologyNode)
      → and_then o
          (λ t. if b then none else some (node_with lower occurs truth raw artifact evidence t))
        ≡ some node
      → (t : NodeType) × (node_with lower occurs truth raw artifact evidence t ≡ node)
  extracted none b node e = absurd (ground arith)
  extracted (some t) true node e = absurd (ground arith)
  extracted (some t) false node e = (t, some-injective _ node e)

  -- The external id of an artifact is read back from the id of the node that is extracted from it,
  -- if the external id has no underscore.
  pub extract_node-external_id :
      (node : OntologyNode)
      → extract_node lower occurs truth raw artifact evidence ≡ some node
      → lacks b'_' raw.external_id ≡ true
      → external_id_from_node node ≡ raw.external_id
  unfolding extract_node
  extract_node-external_id node e h =
      let (t, same) =
        extracted (node_type_of lower occurs truth (look_up raw.metadata "mbse_type") raw)
          (raw.title == "") node e in
      subst (λ n. external_id_from_node n ≡ raw.external_id) same
        (external_id-node_id (node_with lower occurs truth raw artifact evidence t) raw.external_id
          refl h)
