-- ===== src/Findings/Sources.antt =====
-- The rules of src/req_tracker/findings/rules.py that read the artifacts of the sources, and the
-- whole analysis. `str(x)` of a value, `s.lower()`, `s.isdigit()` and `int(s)` are
-- Python's.
use Prim.Native.String.{String}
use se_1_rune_agent.Base.{
  ℕ, Bool, true, false, ◌&&◌, ◌||◌, Option, none, some, List, [], ◌∷◌, ◌++◌, ◌==◌, any, elem,
  if◌then◌else◌,
}
use se_1_rune_agent.Base.Dict.{Dict, get, index}
use se_1_rune_agent.Base.Text.{concat, strip, head_of}
use se_1_rune_agent.Base.Integers.{ℤ, pos, ltb_ℤ, decimal_ℤ}
use se_1_rune_agent.Ontology.{
  EvidenceSpan, OntologyNode, NodeType, TraceabilityEdge, EdgeRelation, Finding, FindingType,
  critical, medium, DetectionMethod, opened, SourceType,
}
use se_1_rune_agent.Adapters.{Metadata, text, whole, look_up, RawSourceArtifact}
use se_1_rune_agent.Reasoning.{external_id_from_node}
use se_1_rune_agent.Findings.{
  finding_id, when, gap_findings, conflict_findings, architecture_findings,
}

-- `int(s)`, where `isdigit` has accepted the text. It may raise all the same: "²" is a digit to
-- the one and no number to the other.
abbrev number_of_text : Option ℕ → Option (Option ℤ)
number_of_text none = none
number_of_text (some n) = some (some (pos n))

-- Two readings, the first of which may raise before the second one.
abbrev pub both : {A : Type 0} → Option A → Option A → Option (A × A)
both none b = none
both (some a) none = none
both (some a) (some b) = some (a, b)

module _ (isdigit : String → Bool) (int : String → Option ℕ) where
  -- `_metadata_int`; `none` is a ValueError.
  unfoldable pub metadata_int : Option Metadata → Option (Option ℤ)
  metadata_int (some (whole n)) = some (some n)
  metadata_int (some (text s)) = if isdigit s then number_of_text (int s) else some none
  metadata_int _ = some none

  abbrev pub versions_of : RawSourceArtifact → Option (Option ℤ × Option ℤ)
  versions_of artifact =
      both (metadata_int (look_up artifact.metadata "previous_version_number"))
        (metadata_int (look_up artifact.metadata "version_number"))

abbrev pub joined : Option (List Finding) → Option (List Finding) → Option (List Finding)
joined none later = none
joined (some found) none = none
joined (some found) (some later) = some (found ++ later)

abbrev is_affects : EdgeRelation → Bool
is_affects EdgeRelation.affects = true
is_affects _ = false

abbrev is_issue : NodeType → Bool
is_issue NodeType.issue = true
is_issue NodeType.risk = true
is_issue _ = false

abbrev pub is_requirement : NodeType → Bool
is_requirement NodeType.requirement = true
is_requirement _ = false

module _ (finding_hash : String → List String → String) where
  abbrev pub stale_finding : RawSourceArtifact → OntologyNode → EvidenceSpan → ℤ → ℤ → Finding
  stale_finding artifact node evidence previous current = record {
    finding_id =
        finding_id finding_hash "CONFLUENCE_PAGE_VERSION_CHANGED"
          (node.node_id ∷ decimal_ℤ previous ∷ decimal_ℤ current ∷ []);
    finding_type = FindingType.stale_trace;
    severity = medium;
    affected_node_ids = node.node_id ∷ [];
    affected_edge_ids = [];
    description = concat (
        artifact.external_id
        ∷ " changed from Confluence version "
        ∷ decimal_ℤ previous
        ∷ " to "
        ∷ decimal_ℤ current
        ∷ "."
        ∷ []);
    suggested_action =
        "Review linked requirements, design, verification, and findings for stale traceability after the document change.";
    evidence = evidence ∷ [];
    detection_method = DetectionMethod.rule;
    approval_status = opened;
    rule_id = some "CONFLUENCE_PAGE_VERSION_CHANGED";
  }

  abbrev pub stale_at :
      RawSourceArtifact
      → Option ℤ × Option ℤ
      → Option OntologyNode
      → Option EvidenceSpan
      → List Finding
  stale_at artifact (some previous, some current) (some node) (some evidence) =
      when (ltb_ℤ previous current) (stale_finding artifact node evidence previous current)
  stale_at artifact _ _ _ = []

  module _ (isdigit : String → Bool) (int : String → Option ℕ) where
    -- The body of the loop of `_confluence_stale_trace_findings`.
    unfoldable pub stale_of :
        Dict OntologyNode
        → Dict EvidenceSpan
        → RawSourceArtifact
        → SourceType
        → Option (List Finding)
    unfolding metadata_int
    stale_of node_by_external_id evidence_by_external_id artifact SourceType.confluence =
        elim (versions_of isdigit int artifact) [
          | none ↦ none
          | some versions ↦ some (
              stale_at artifact versions (get node_by_external_id artifact.external_id)
                (get evidence_by_external_id artifact.external_id))
        ]
    stale_of node_by_external_id evidence_by_external_id artifact _ = some []

    -- `_confluence_stale_trace_findings`
    unfoldable pub stale_findings :
        Dict OntologyNode → Dict EvidenceSpan → List RawSourceArtifact → Option (List Finding)
    unfolding stale_of
    stale_findings node_by_external_id evidence_by_external_id [] = some []
    stale_findings node_by_external_id evidence_by_external_id (artifact ∷ artifacts) =
        joined (stale_of node_by_external_id evidence_by_external_id artifact artifact.source_type)
          (stale_findings node_by_external_id evidence_by_external_id artifacts)

  abbrev pub escalation : TraceabilityEdge → OntologyNode → OntologyNode → Finding
  escalation edge source target = record {
    finding_id =
        finding_id finding_hash "ISSUE_AFFECTS_CRITICAL_REQUIREMENT"
          (edge.edge_id ∷ source.node_id ∷ target.node_id ∷ []);
    finding_type = FindingType.cross_domain_hidden;
    severity = critical;
    affected_node_ids =
        if source.node_id == target.node_id
        then source.node_id ∷ []
        else source.node_id ∷ target.node_id ∷ [];
    affected_edge_ids = edge.edge_id ∷ [];
    description =
        concat (source.node_id ∷ " affects critical requirement " ∷ target.node_id ∷ "." ∷ []);
    suggested_action =
        "Escalate the affected critical requirement and review release risk, verification coverage, and mitigation owner.";
    evidence = edge.evidence;
    detection_method = DetectionMethod.rule;
    approval_status = opened;
    rule_id = some "ISSUE_AFFECTS_CRITICAL_REQUIREMENT";
  }

  module _ (str_of : Metadata → String) (lower : String → String) where
    abbrev critical_words : List String
    critical_words = "p0" ∷ "critical" ∷ "blocker" ∷ []

    abbrev priority_text : Option Metadata → String
    priority_text none = ""
    priority_text (some m) = str_of m

    -- `_is_critical_requirement`
    unfoldable pub is_critical_requirement : RawSourceArtifact → Bool
    is_critical_requirement artifact =
        elem (lower (strip (priority_text (look_up artifact.metadata "priority")))) critical_words
        || any (λ label. elem (lower (strip label)) critical_words) artifact.labels

    abbrev is_critical : Option RawSourceArtifact → Bool
    is_critical none = false
    is_critical (some artifact) = is_critical_requirement artifact

    abbrev pub escalates :
        Dict RawSourceArtifact
        → TraceabilityEdge
        → Option OntologyNode
        → Option OntologyNode
        → List Finding
    escalates artifacts edge (some source) (some target) =
        when
          (is_affects edge.relation
            && (is_issue source.node_type
                && (is_requirement target.node_type
                    && is_critical (get artifacts (external_id_from_node target)))))
          (escalation edge source target)
    escalates artifacts edge _ _ = []

    -- `_issue_affects_critical_requirement_findings`
    unfoldable pub issue_findings :
        Dict OntologyNode → Dict RawSourceArtifact → List TraceabilityEdge → List Finding
    unfolding is_critical_requirement external_id_from_node concat head_of
    issue_findings nodes_by_id artifacts [] = []
    issue_findings nodes_by_id artifacts (edge ∷ edges) =
        escalates artifacts edge (get nodes_by_id edge.source_node_id)
          (get nodes_by_id edge.target_node_id)
        ++ issue_findings nodes_by_id artifacts edges

    -- What `analyze_findings` adds after the loop over the nodes.
    abbrev pub later_findings :
        List OntologyNode
        → List TraceabilityEdge
        → List RawSourceArtifact
        → (stale : List Finding) → List Finding
    later_findings nodes edges source_artifacts stale =
        let nodes_by_id = index (λ node. node.node_id) nodes in
        conflict_findings finding_hash edges
        ++ (stale
            ++ (issue_findings nodes_by_id
                  (index (λ artifact. artifact.external_id) source_artifacts) edges
                ++ architecture_findings finding_hash nodes_by_id nodes edges))

    -- `none` is the ValueError of a version that cannot be read.
    unfoldable pub analyze_findings :
        (isdigit : String → Bool) (int : String → Option ℕ)
        → List OntologyNode
        → List TraceabilityEdge
        → List RawSourceArtifact
        → Dict EvidenceSpan
        → Option (List Finding)
    unfolding stale_findings issue_findings gap_findings conflict_findings architecture_findings
    analyze_findings isdigit int nodes edges source_artifacts evidence_by_external_id =
        elim (stale_findings isdigit int (index external_id_from_node nodes) evidence_by_external_id
          source_artifacts) [
            | none ↦ none
            | some stale ↦ some (
                gap_findings finding_hash nodes edges
                ++ later_findings nodes edges source_artifacts stale)
          ]
