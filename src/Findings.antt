-- ===== src/Findings.antt =====
-- src/req_tracker/findings/rules.py: the findings that rules read off the graph. The hash of a rule
-- and of what it names is a parameter.
mod Sources
mod Affected
mod Gaps
mod Witnesses
use Prim.Native.String.{String}
use se_1_rune_agent.Base.{
  ℕ, ◌+◌, Bool, true, false, not, ◌&&◌, ◌||◌, Option, none, some, List, [], ◌∷◌, ◌++◌, ◌==◌, ltb,
  leb, select, any, map, length, elem, if◌then◌else◌,
}
use se_1_rune_agent.Base.Dict.{Dict, get, has_key, index, dedupe}
use se_1_rune_agent.Base.Text.{concat, head_of, decimal, strip}
use se_1_rune_agent.Ontology.{
  EvidenceSpan, OntologyNode, NodeType, TraceabilityEdge, EdgeRelation, Finding, FindingType,
  Severity, critical, high, medium, DetectionMethod, opened, SourceType,
}
use se_1_rune_agent.Adapters.{Metadata, text, whole, flag, Entries, look_up, RawSourceArtifact}
use se_1_rune_agent.Reasoning.{external_id_from_node}

abbrev pub is_implementation : EdgeRelation → Bool
is_implementation EdgeRelation.satisfies = true
is_implementation EdgeRelation.implements = true
is_implementation _ = false

abbrev pub is_verification : EdgeRelation → Bool
is_verification EdgeRelation.verifies = true
is_verification _ = false

abbrev pub is_trace : EdgeRelation → Bool
is_trace EdgeRelation.satisfies = true
is_trace EdgeRelation.implements = true
is_trace EdgeRelation.derives = true
is_trace _ = false

-- `incoming_by_target[x]` and `outgoing_by_source[x]`: the edges at the node, in their order.
abbrev pub incoming : List TraceabilityEdge → String → List TraceabilityEdge
incoming edges x = select (λ e. e.target_node_id == x) edges

abbrev pub outgoing : List TraceabilityEdge → String → List TraceabilityEdge
outgoing edges x = select (λ e. e.source_node_id == x) edges

abbrev severity_of : FindingType → Severity
severity_of FindingType.missing_implementation = high
severity_of _ = medium

abbrev pub when {ℓ} : {A : Type ℓ} → Bool → A → List A
when true a = a ∷ []
when false a = []

abbrev pub is_implements : EdgeRelation → Bool
is_implements EdgeRelation.implements = true
is_implements _ = false

abbrev first_evidence : List TraceabilityEdge → List EvidenceSpan → List EvidenceSpan
first_evidence [] d = d
first_evidence (e ∷ es) d = e.evidence

abbrev pub is_verified : List TraceabilityEdge → String → Bool
is_verified edges x = any (λ e. is_verification e.relation) (incoming edges x)

abbrev pub trace_edges_of : List TraceabilityEdge → String → List TraceabilityEdge
trace_edges_of edges x = select (λ e. is_trace e.relation) (outgoing edges x)

module _ (finding_hash : String → List String → String) where
  abbrev pub finding_id : String → List String → String
  finding_id rule parts = concat ("fdg_" ∷ head_of 16 (finding_hash rule parts) ∷ [])

  -- `_finding`
  abbrev pub rule_finding : String → OntologyNode → FindingType → Finding
  rule_finding rule node finding_type = record {
    finding_id = finding_id rule (node.node_id ∷ []);
    finding_type = finding_type;
    severity = severity_of finding_type;
    affected_node_ids = node.node_id ∷ [];
    affected_edge_ids = [];
    description = concat (node.node_id ∷ " triggered " ∷ rule ∷ "." ∷ []);
    suggested_action = "Review traceability links and add missing relation or verification.";
    evidence = node.evidence;
    detection_method = DetectionMethod.rule;
    approval_status = opened;
    rule_id = some rule;
  }

  abbrev pub gaps_of : NodeType → OntologyNode → List TraceabilityEdge → List Finding
  gaps_of NodeType.requirement node edges =
      when (not (any (λ e. is_implementation e.relation) (incoming edges node.node_id)))
        (rule_finding "REQ_WITHOUT_IMPLEMENTATION" node FindingType.missing_implementation)
      ++ when (not (any (λ e. is_verification e.relation) (incoming edges node.node_id)))
          (rule_finding "REQ_WITHOUT_VERIFICATION" node FindingType.missing_verification)
  gaps_of NodeType.design_spec node edges =
      when (not (any (λ e. is_trace e.relation) (outgoing edges node.node_id)))
        (rule_finding "DESIGN_WITHOUT_PARENT" node FindingType.orphan_node)
  gaps_of _ node edges = []

  -- The loop over the nodes.
  unfoldable pub gap_findings : List OntologyNode → List TraceabilityEdge → List Finding
  unfolding concat head_of
  gap_findings [] edges = []
  gap_findings (node ∷ nodes) edges = gaps_of node.node_type node edges ++ gap_findings nodes edges

  abbrev pub conflict_finding : String → List TraceabilityEdge → Finding
  conflict_finding target impl_edges =
      let affected = target ∷ map (λ e. e.source_node_id) impl_edges in
      record {
        finding_id = finding_id "CONFLICTING_ALTERNATIVES" affected;
        finding_type = FindingType.conflict;
        severity = high;
        affected_node_ids = dedupe affected;
        affected_edge_ids = dedupe (map (λ e. e.edge_id) impl_edges);
        description = "Multiple implementation alternatives target the same architecture.";
        suggested_action = "Select one implementation or mark alternatives as superseded.";
        evidence = first_evidence impl_edges [];
        detection_method = DetectionMethod.rule;
        approval_status = opened;
        rule_id = some "CONFLICTING_ALTERNATIVES";
      }

  abbrev pub conflicts_at : List TraceabilityEdge → List String → List Finding
  conflicts_at impl_edges [] = []
  conflicts_at impl_edges (target ∷ targets) =
      when (ltb 1 (length (incoming impl_edges target)))
        (conflict_finding target (incoming impl_edges target))
      ++ conflicts_at impl_edges targets

  -- The loop over `impl_by_target`, whose keys stand in the order of their first edges.
  unfoldable pub conflict_findings : List TraceabilityEdge → List Finding
  conflict_findings edges =
      let impl_edges = select (λ e. is_implements e.relation) edges in
      conflicts_at impl_edges (dedupe (map (λ e. e.target_node_id) impl_edges))

  abbrev pub architecture_finding : OntologyNode → List TraceabilityEdge → List String → Finding
  architecture_finding node trace_edges targets = record {
    finding_id =
        finding_id "ARCHITECTURE_WITHOUT_VERIFICATION_PATH"
          (node.node_id ∷ (targets ++ map (λ e. e.edge_id) trace_edges));
    finding_type = FindingType.missing_verification;
    severity = high;
    affected_node_ids = dedupe (node.node_id ∷ targets);
    affected_edge_ids = dedupe (map (λ e. e.edge_id) trace_edges);
    description = concat (node.node_id ∷ " has no direct or linked verification path." ∷ []);
    suggested_action =
        "Add a verification relation to the architecture block or to a linked requirement/design target that validates this architecture.";
    evidence = first_evidence trace_edges node.evidence;
    detection_method = DetectionMethod.rule;
    approval_status = opened;
    rule_id = some "ARCHITECTURE_WITHOUT_VERIFICATION_PATH";
  }

  abbrev pub architecture_gaps :
      NodeType → Dict OntologyNode → OntologyNode → List TraceabilityEdge → List Finding
  architecture_gaps NodeType.architecture_block nodes_by_id node edges =
      let trace_edges = trace_edges_of edges node.node_id in
      when
        (not (
          is_verified edges node.node_id
          || any (λ e. is_verified edges e.target_node_id) trace_edges))
        (architecture_finding node trace_edges (
          map (λ e. e.target_node_id)
            (select (λ e. has_key nodes_by_id e.target_node_id) trace_edges)))
  architecture_gaps _ nodes_by_id node edges = []

  -- `_architecture_without_verification_path_findings`
  unfoldable pub architecture_findings :
      Dict OntologyNode → List OntologyNode → List TraceabilityEdge → List Finding
  unfolding concat head_of
  architecture_findings nodes_by_id [] edges = []
  architecture_findings nodes_by_id (node ∷ nodes) edges =
      architecture_gaps node.node_type nodes_by_id node edges
      ++ architecture_findings nodes_by_id nodes edges
