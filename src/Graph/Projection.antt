-- ===== src/Graph/Projection.antt =====
-- src/req_tracker/graph/projection.py: the graph as the screen shows it. This file has the views
-- of nodes and edges with their degrees, findings and risks.
pub mod Select
pub mod Degrees
pub mod Risks
pub mod Build
use se_1_rune_agent.Base.{
  ℕ, ◌+◌, ◌*◌, String, Bool, true, false, not, ◌&&◌, ◌||◌, Option, none, some, List, [], ◌∷◌, ◌++◌,
  ◌==◌, ltb, leb, eqb, select, length, is_some, if◌then◌else◌,
}
use se_1_rune_agent.Base.Dict.{Dict, get, put, has_key}
use se_1_rune_agent.Base.Text.{concat, text_leb}
use se_1_rune_agent.Base.Sort.{sort_by}
use se_1_rune_agent.Ontology.{
  OntologyNode, TraceabilityEdge, EvidenceSpan, LifecycleState, CreatedBy, Finding, Severity,
  critical, high, medium, low, relation_name, type_name, approval_name,
}
use se_1_rune_agent.Graph.Chain.{GraphChainEdgeStatus, approved, pending}

pub data GraphViewMode : Type 0 where
  overview neighborhood orphans pending_only full : GraphViewMode

pub data GraphEdgeFilter : Type 0 where
  all_edges approved_only pending_edges_only incoming outgoing : GraphEdgeFilter

pub record GraphNodeView : Type 0 where
  pub node_id : String
  pub node_type : String
  pub name : String
  pub description : String
  pub project_key : String
  pub domain : Option String
  pub lifecycle_state : LifecycleState
  pub source_artifact_ids : List String
  pub evidence : List EvidenceSpan
  pub created_by : CreatedBy
  pub confidence_score : ℕ
  pub version : ℕ
  pub approved_in_degree : ℕ
  pub approved_out_degree : ℕ
  pub pending_in_degree : ℕ
  pub pending_out_degree : ℕ
  pub finding_count : ℕ
  pub risk_level : String
  pub is_orphan : Bool
  pub has_pending_edges : Bool

pub record GraphEdgeView : Type 0 where
  pub edge_id : String
  pub source_node_id : String
  pub source_node_name : Option String
  pub target_node_id : String
  pub target_node_name : Option String
  pub relation : String
  pub reasoning : String
  pub evidence : List EvidenceSpan
  pub is_inferred : Bool
  pub confidence_score : ℕ
  pub approval_status : String
  pub approved_by : Option String
  pub approved_at : Option ℕ
  pub version : ℕ
  pub view_status : GraphChainEdgeStatus
  pub approval_id : Option String

-- `_edge_nodes_exist`
abbrev pub edge_nodes_exist : TraceabilityEdge → Dict OntologyNode → Bool
edge_nodes_exist edge node_map =
    has_key node_map edge.source_node_id && has_key node_map edge.target_node_id

-- An entry of `degree`; a `defaultdict` starts at `no_degree`.
pub record Degree : Type 0 where
  pub approved_in : ℕ
  pub approved_out : ℕ
  pub pending_in : ℕ
  pub pending_out : ℕ

abbrev pub no_degree : Degree
no_degree = record { approved_in = 0; approved_out = 0; pending_in = 0; pending_out = 0 }

-- `d[k]` of a `defaultdict`
abbrev pub or_else {ℓ} : {A : Type ℓ} → A → Option A → A
or_else a none = a
or_else a (some b) = b

abbrev pub degree_of : Dict Degree → String → Degree
degree_of degree k = or_else no_degree (get degree k)

unfoldable pub change_degree : (Degree → Degree) → String → Dict Degree → Dict Degree
change_degree f k degree = put degree k (f (degree_of degree k))

-- The two loops of `_degree_by_node`.
unfoldable pub approved_degrees : Dict Degree → List TraceabilityEdge → Dict Degree
unfolding change_degree
approved_degrees degree [] = degree
approved_degrees degree (edge ∷ edges) =
    approved_degrees
      (change_degree (λ d. record d { approved_in = d.approved_in + 1 }) edge.target_node_id
        (change_degree (λ d. record d { approved_out = d.approved_out + 1 }) edge.source_node_id
          degree))
      edges

unfoldable pub pending_degrees : Dict Degree → List TraceabilityEdge → Dict Degree
unfolding change_degree
pending_degrees degree [] = degree
pending_degrees degree (edge ∷ edges) =
    pending_degrees
      (change_degree (λ d. record d { pending_in = d.pending_in + 1 }) edge.target_node_id
        (change_degree (λ d. record d { pending_out = d.pending_out + 1 }) edge.source_node_id
          degree))
      edges

unfoldable pub degree_by_node : List TraceabilityEdge → List TraceabilityEdge → Dict Degree
unfolding approved_degrees pending_degrees
degree_by_node approved_edges pending_edges =
    pending_degrees (approved_degrees [] approved_edges) pending_edges

-- `_finding_by_node`
abbrev pub count_nodes : Dict ℕ → List String → Dict ℕ
count_nodes counts [] = counts
count_nodes counts (id ∷ ids) = count_nodes (put counts id (or_else 0 (get counts id) + 1)) ids

unfoldable pub finding_by_node : Dict ℕ → List Finding → Dict ℕ
finding_by_node counts [] = counts
finding_by_node counts (finding ∷ findings) =
    finding_by_node (count_nodes counts finding.affected_node_ids) findings

-- `_SEVERITY_RANK`
abbrev pub severity_rank : Severity → ℕ
severity_rank low = 1
severity_rank medium = 2
severity_rank high = 3
severity_rank critical = 4

abbrev pub severity_name : Severity → String
severity_name low = "low"
severity_name medium = "medium"
severity_name high = "high"
severity_name critical = "critical"

-- `risk` and `rank_by_node`
pub record RiskTable : Type 0 where
  pub risk : Dict String
  pub rank_by_node : Dict ℕ

abbrev pub risk_of : RiskTable → String → String
risk_of t id = or_else "none" (get t.risk id)

abbrev pub rank_of : RiskTable → String → ℕ
rank_of t id = or_else 0 (get t.rank_by_node id)

-- The body of the inner loop of `_risk_by_node`.
unfoldable pub raise_risk : Severity → String → RiskTable → RiskTable
raise_risk severity id t =
    if ltb (rank_of t id) (severity_rank severity)
    then record {
      risk = put t.risk id (severity_name severity);
      rank_by_node = put t.rank_by_node id (severity_rank severity);
    }
    else t

unfoldable pub raise_risks : Severity → List String → RiskTable → RiskTable
unfolding raise_risk
raise_risks severity [] t = t
raise_risks severity (id ∷ ids) t = raise_risks severity ids (raise_risk severity id t)

unfoldable pub risk_by_node : RiskTable → List Finding → RiskTable
unfolding raise_risks
risk_by_node t [] = t
risk_by_node t (finding ∷ findings) =
    risk_by_node (raise_risks finding.severity finding.affected_node_ids t) findings

-- `_node_view`
unfoldable pub node_view : OntologyNode → Degree → ℕ → String → GraphNodeView
node_view node degree finding_count risk_level =
    let total_degree =
      degree.approved_in + degree.approved_out + degree.pending_in + degree.pending_out in
    let pending_degree = degree.pending_in + degree.pending_out in
    record {
      node_id = node.node_id;
      node_type = type_name node.node_type;
      name = node.name;
      description = node.description;
      project_key = node.project_key;
      domain = node.domain;
      lifecycle_state = node.lifecycle_state;
      source_artifact_ids = node.source_artifact_ids;
      evidence = node.evidence;
      created_by = node.created_by;
      confidence_score = node.confidence_score;
      version = node.version;
      approved_in_degree = degree.approved_in;
      approved_out_degree = degree.approved_out;
      pending_in_degree = degree.pending_in;
      pending_out_degree = degree.pending_out;
      finding_count = finding_count;
      risk_level = risk_level;
      is_orphan = eqb total_degree 0;
      has_pending_edges = ltb 0 pending_degree;
    }

abbrev pub is_pending : GraphChainEdgeStatus → Bool
is_pending pending = true
is_pending approved = false

-- `_edge_view`
unfoldable pub edge_view :
    TraceabilityEdge → GraphChainEdgeStatus → Dict String → Option String → GraphEdgeView
edge_view edge view_status node_names approval_id = record {
  edge_id = edge.edge_id;
  source_node_id = edge.source_node_id;
  source_node_name = get node_names edge.source_node_id;
  target_node_id = edge.target_node_id;
  target_node_name = get node_names edge.target_node_id;
  relation = relation_name edge.relation;
  reasoning = edge.reasoning;
  evidence = edge.evidence;
  is_inferred = edge.is_inferred;
  confidence_score = edge.confidence_score;
  approval_status =
      if is_pending view_status then "pending" else approval_name edge.approval_status;
  approved_by = if is_pending view_status then none else edge.approved_by;
  approved_at = if is_pending view_status then none else edge.approved_at;
  version = edge.version;
  view_status = view_status;
  approval_id = approval_id;
}
