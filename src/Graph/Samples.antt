-- ===== src/Graph/Samples.antt =====
-- Three linked nodes of one project and one of another: for the runs on concrete inputs.
use se_1_rune_agent.Base.{String, false, none, some, List, [], ◌∷◌}
use se_1_rune_agent.Ontology.{
  OntologyNode, NodeType, TraceabilityEdge, EdgeRelation, satisfies, verifies, draft, source,
  ApprovalStatus, Finding, FindingType, high, DetectionMethod, opened,
}

abbrev pub node_of : String → String → NodeType → OntologyNode
node_of id project node_type = record {
  node_id = id;
  node_type = node_type;
  name = id;
  description = "";
  project_key = project;
  domain = none;
  lifecycle_state = draft;
  source_artifact_ids = [];
  evidence = [];
  created_by = source;
  confidence_score = 95;
  version = 1;
}

abbrev pub edge_of : String → String → EdgeRelation → String → TraceabilityEdge
edge_of id u relation v = record {
  edge_id = id;
  source_node_id = u;
  target_node_id = v;
  relation = relation;
  reasoning = "link";
  evidence = [];
  is_inferred = false;
  confidence_score = 80;
  approval_status = ApprovalStatus.approved;
  approved_by = some "lead";
  approved_at = none;
  version = 1;
}

abbrev pub nodes : List OntologyNode
nodes =
    node_of "req_1" "SYS" NodeType.requirement
    ∷ node_of "des_1" "SYS" NodeType.design_spec
    ∷ node_of "ver_1" "SYS" NodeType.verification
    ∷ node_of "req_9" "OTHER" NodeType.requirement
    ∷ []

abbrev pub approved_edges : List TraceabilityEdge
approved_edges =
    edge_of "edge_1" "des_1" satisfies "req_1" ∷ edge_of "edge_9" "req_9" satisfies "req_1" ∷ []

abbrev pub pending_edges : List TraceabilityEdge
pending_edges = edge_of "edge_2" "ver_1" verifies "des_1" ∷ []

abbrev pub findings : List Finding
findings =
    record {
      finding_id = "fdg_1";
      finding_type = FindingType.missing_verification;
      severity = high;
      affected_node_ids = "req_1" ∷ [];
      affected_edge_ids = [];
      description = "req_1 has no verification.";
      suggested_action = "Add one.";
      evidence = [];
      detection_method = DetectionMethod.rule;
      approval_status = opened;
      rule_id = none;
    }
    ∷ []
