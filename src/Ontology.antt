-- ===== src/Ontology.antt =====
-- src/req_tracker/ontology/models.py: the source and graph contracts, with the validators that
-- the classes declare. A Literal is a data type, and a timestamp a number of microseconds.
-- A confidence score is a number of hundredths: the scores that the program writes and the
-- bounds that it compares them with all are.
use se_1_rune_agent.Base.{
  ℕ, String, Bool, true, false, Option, none, some, List, [], ◌∷◌, ◌==◌, ◌&&◌, not, leb, truthy,
  all,
}
use se_1_rune_agent.Base.Dict.{dedupe}
use se_1_rune_agent.Base.Text.{text_length}

pub data SourceType : Type 0 where
  jira confluence email decision_archive dummy : SourceType

pub data DataClassification : Type 0 where
  public_internal restricted confidential no_external_llm : DataClassification

pub data NodeType : Type 0 where
  requirement architecture_block design_spec verification issue decision component risk : NodeType

pub data LifecycleState : Type 0 where
  draft active deprecated superseded : LifecycleState

pub data CreatedBy : Type 0 where
  source ai human : CreatedBy

pub data EdgeRelation : Type 0 where
  satisfies verifies derives implements affects blocks conflicts_with supersedes decides :
      EdgeRelation

pub data ApprovalStatus : Type 0 where
  pending approved rejected modified expired : ApprovalStatus

pub data FindingType : Type 0 where
  orphan_node missing_verification missing_implementation conflict : FindingType
  cross_domain_hidden stale_trace weak_evidence policy_violation : FindingType

pub data Severity : Type 0 where
  critical high medium low : Severity

pub data DetectionMethod : Type 0 where
  rule llm hybrid : DetectionMethod

pub data FindingStatus : Type 0 where
  opened acknowledged resolved dismissed : FindingStatus

pub record EvidenceSpan : Type 0 where
  pub artifact_id : String
  pub source_url : String
  pub quote_hash : String
  pub extracted_text_preview : String
  pub start_offset : Option ℕ
  pub end_offset : Option ℕ
  pub section_path : Option String
  pub table_cell_ref : Option String

-- `validate_offsets`: ordered offsets when both are present.
unfoldable pub validate_offsets : EvidenceSpan → Bool
validate_offsets e = elim e.start_offset [
  | none ↦ true
  | some s ↦ elim e.end_offset [ none ↦ true | some t ↦ leb s t ]
]

abbrev pub is_valid_preview : String → Bool
is_valid_preview preview = leb 1 (text_length preview) && leb (text_length preview) 500

-- What a constructed span meets: the bounds of its fields, and its validator. Offsets are numbers
-- from zero on by their type.
unfoldable pub accepts_span : EvidenceSpan → Bool
unfolding validate_offsets
accepts_span e = is_valid_preview e.extracted_text_preview && validate_offsets e

pub record SourceArtifact : Type 0 where
  pub artifact_id : String
  pub source_type : SourceType
  pub source_url : String
  pub external_id : String
  pub project_key : String
  pub title : String
  pub body_text_ref : String
  pub author_id : Option String
  pub created_at : ℕ
  pub updated_at : ℕ
  pub ingested_at : ℕ
  pub content_hash : String
  pub access_scope : List String
  pub data_classification : DataClassification

pub record ArtifactChunk : Type 0 where
  pub chunk_id : String
  pub artifact_id : String
  pub project_key : String
  pub text : String
  pub index : ℕ
  pub evidence : EvidenceSpan
  pub content_hash : String

pub record OntologyNode : Type 0 where
  pub node_id : String
  pub node_type : NodeType
  pub name : String
  pub description : String
  pub project_key : String
  pub domain : Option String
  pub lifecycle_state : LifecycleState
  pub source_artifact_ids : List String
  pub evidence : List EvidenceSpan
  pub created_by : CreatedBy
  pub confidence_score : ℕ
  pub version : ℕ

pub record TraceabilityEdge : Type 0 where
  pub edge_id : String
  pub source_node_id : String
  pub target_node_id : String
  pub relation : EdgeRelation
  pub reasoning : String
  pub evidence : List EvidenceSpan
  pub is_inferred : Bool
  pub confidence_score : ℕ
  pub approval_status : ApprovalStatus
  pub approved_by : Option String
  pub approved_at : Option ℕ
  pub version : ℕ

abbrev pub is_approved : ApprovalStatus → Bool
is_approved approved = true
is_approved _ = false

-- `validate_approval_fields`: an approved edge names its approver.
unfoldable pub validate_approval_fields : TraceabilityEdge → Bool
validate_approval_fields e = elim (is_approved e.approval_status) [
  | true ↦ truthy e.approved_by
  | false ↦ true
]

abbrev pub is_nil {ℓ} : {A : Type ℓ} → List A → Bool
is_nil [] = true
is_nil (_ ∷ _) = false

-- What a constructed edge meets: the bounds of its fields, spans that are constructed too, and its
-- validator.
unfoldable pub accepts_edge : TraceabilityEdge → Bool
unfolding validate_approval_fields accepts_span
accepts_edge e =
    not (e.reasoning == "")
    && (not (is_nil e.evidence)
        && (all accepts_span e.evidence
            && (leb e.confidence_score 100 && (leb 1 e.version && validate_approval_fields e))))

pub record Finding : Type 0 where
  pub finding_id : String
  pub finding_type : FindingType
  pub severity : Severity
  pub affected_node_ids : List String
  pub affected_edge_ids : List String
  pub description : String
  pub suggested_action : String
  pub evidence : List EvidenceSpan
  pub detection_method : DetectionMethod
  pub approval_status : FindingStatus
  pub rule_id : Option String

-- `require_some_affected_item`, the validator of both lists: each id once, in order.
unfoldable pub require_some_affected_item : List String → List String
require_some_affected_item value = dedupe value

-- The texts of the Literals.
abbrev pub relation_name : EdgeRelation → String
relation_name satisfies = "satisfies"
relation_name verifies = "verifies"
relation_name derives = "derives"
relation_name implements = "implements"
relation_name affects = "affects"
relation_name blocks = "blocks"
relation_name conflicts_with = "conflicts_with"
relation_name supersedes = "supersedes"
relation_name decides = "decides"

abbrev pub type_name : NodeType → String
type_name requirement = "Requirement"
type_name architecture_block = "Architecture_Block"
type_name design_spec = "Design_Spec"
type_name verification = "Verification"
type_name issue = "Issue"
type_name decision = "Decision"
type_name component = "Component"
type_name risk = "Risk"

abbrev pub approval_name : ApprovalStatus → String
approval_name ApprovalStatus.pending = "pending"
approval_name ApprovalStatus.approved = "approved"
approval_name ApprovalStatus.rejected = "rejected"
approval_name ApprovalStatus.modified = "modified"
approval_name ApprovalStatus.expired = "expired"
