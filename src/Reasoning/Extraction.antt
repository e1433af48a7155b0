-- ===== src/Reasoning/Extraction.antt =====
-- src/req_tracker/reasoning/extraction.py: the node of an artifact. Lower-casing, the substring test
-- and the truth of a metadata value are Python's.
pub mod Names
use Prim.Native.String.{String}
use se_1_rune_agent.Base.{
  ℕ, Bool, true, false, Option, none, some, List, [], ◌∷◌, ◌==◌, and_then, if◌then◌else◌,
}
use se_1_rune_agent.Base.Text.{concat, join}
use se_1_rune_agent.Ontology.{
  EvidenceSpan, SourceArtifact, OntologyNode, NodeType, type_name, active, source,
}
use se_1_rune_agent.Adapters.{Metadata, text, look_up, RawSourceArtifact}
use se_1_rune_agent.Reasoning.{node_id}

abbrev types_of_text : List NodeType → String → Option NodeType
types_of_text [] s = none
types_of_text (t ∷ ts) s = if type_name t == s then some t else types_of_text ts s

-- The Literal of node types.
abbrev pub type_of_text : String → Option NodeType
type_of_text = types_of_text (
    NodeType.requirement ∷ NodeType.architecture_block ∷ NodeType.design_spec
    ∷ NodeType.verification ∷ NodeType.issue ∷ NodeType.decision ∷ NodeType.component
    ∷ NodeType.risk ∷ [])

-- `_KEYWORDS`
abbrev keywords : List (String × NodeType)
keywords =
    ("shall", NodeType.requirement)
    ∷ ("must", NodeType.requirement)
    ∷ ("architecture", NodeType.architecture_block)
    ∷ ("design", NodeType.design_spec)
    ∷ ("verification", NodeType.verification)
    ∷ ("test", NodeType.verification)
    ∷ ("issue", NodeType.issue)
    ∷ ("risk", NodeType.risk)
    ∷ []

module _ (lower : String → String) (occurs : String → String → Bool) (truth : Metadata → Bool) where
  abbrev type_by_keyword : List (String × NodeType) → String → NodeType
  type_by_keyword [] s = NodeType.design_spec
  type_by_keyword ((keyword, t) ∷ rest) s = if occurs keyword s then t else type_by_keyword rest s

  -- `_infer_type`
  unfoldable pub infer_type : RawSourceArtifact → NodeType
  unfolding concat join
  infer_type raw =
      type_by_keyword keywords
        (lower (concat (raw.title ∷ " " ∷ raw.body_text ∷ " " ∷ join " " raw.labels ∷ [])))

  -- The type that the metadata give, checked by the node's class, or the inferred one.
  abbrev pub node_type_of : Option Metadata → RawSourceArtifact → Option NodeType
  node_type_of (some (text s)) raw = type_of_text s
  node_type_of _ raw = some (infer_type raw)

  abbrev pub confidence_of : Option Metadata → ℕ
  confidence_of none = 65
  confidence_of (some m) = if truth m then 95 else 65

  abbrev pub node_with : RawSourceArtifact → SourceArtifact → EvidenceSpan → NodeType → OntologyNode
  node_with raw artifact evidence node_type = record {
    node_id = node_id artifact.project_key raw.external_id;
    node_type = node_type;
    name = raw.title;
    description = raw.body_text;
    project_key = artifact.project_key;
    domain = none;
    lifecycle_state = active;
    source_artifact_ids = artifact.artifact_id ∷ [];
    evidence = evidence ∷ [];
    created_by = source;
    confidence_score = confidence_of (look_up raw.metadata "mbse_type");
    version = 1;
  }

  -- `none` is a ValidationError: an unknown type, or an empty title.
  unfoldable pub extract_node :
      RawSourceArtifact → SourceArtifact → EvidenceSpan → Option OntologyNode
  unfolding infer_type
  extract_node raw artifact evidence =
      and_then (node_type_of (look_up raw.metadata "mbse_type") raw) λ node_type.
        if raw.title == "" then none else some (node_with raw artifact evidence node_type)
