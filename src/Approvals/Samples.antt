-- ===== src/Approvals/Samples.antt =====
-- A small instance of what the approval code takes from outside, and an edge that is staged: for the
-- runs on concrete inputs.
use se_1_rune_agent.Base.{
  ℕ, String, true, Option, none, some, [], ◌∷◌, ◌==◌, ◌≡◌, refl, if◌then◌else◌, arith,
}
use se_1_rune_agent.Base.Dict.{Dict, get}
use se_1_rune_agent.Ontology.{
  EvidenceSpan, satisfies, ApprovalStatus, pending, approved, rejected, modified, expired,
  TraceabilityEdge, accepts_edge,
}
use se_1_rune_agent.Approvals.{
  ProposalType, ApprovalItemStatus, medium, DecisionAction, ApprovalItem, ApprovalDecision,
}
use se_1_rune_agent.Approvals.Contracts.{Contracts, IsPydantic}
use se_1_rune_agent.Approvals.Service.{Desk}
use se_1_rune_agent.Graph.Memory.{empty_graph}

pub data Cell : Type 0 where
  text : String → Cell
  moment : ℕ → Cell
  edge : TraceabilityEdge → Cell

abbrev status_text : ApprovalStatus → String
status_text pending = "pending"
status_text approved = "approved"
status_text rejected = "rejected"
status_text modified = "modified"
status_text expired = "expired"

abbrev dump_edge : TraceabilityEdge → Dict Cell
dump_edge e = ("edge", edge e) ∷ ("approval_status", text (status_text e.approval_status)) ∷ []

abbrev read_status : Option Cell → ApprovalStatus → ApprovalStatus
read_status (some (text s)) old = if s == "approved" then approved else old
read_status _ old = old

abbrev read_approver : Option Cell → Option String → Option String
read_approver (some (text s)) old = some s
read_approver _ old = old

abbrev accepted : TraceabilityEdge → Option TraceabilityEdge
accepted e = if accepts_edge e then some e else none

abbrev overridden : Dict Cell → TraceabilityEdge → TraceabilityEdge
overridden d e = record e {
  approval_status = read_status (get d "approval_status") e.approval_status;
  approved_by = read_approver (get d "approved_by") e.approved_by;
}

abbrev validate_cell : Dict Cell → Option Cell → Option TraceabilityEdge
validate_cell d (some (edge e)) = accepted (overridden d e)
validate_cell d _ = none

abbrev pub contracts : Contracts
contracts = record {
  Value = Cell;
  text = text;
  moment = moment;
  dump_edge = dump_edge;
  validate_edge = λ d. validate_cell d (get d "edge");
  validate_node = λ d. none;
  dump_json = λ d. "{}";
  hash_edge = λ e. e.edge_id;
  lower = λ s. s;
  hash_decision = λ d. d.decided_by;
}

accepted-eq : (x e : TraceabilityEdge) → accepted x ≡ some e → (x ≡ e) × (accepts_edge x ≡ true)
accepted-eq x e h = ground arith

validate_cell-eq :
    (d : Dict Cell) (o : Option Cell) (e : TraceabilityEdge)
    → validate_cell d o ≡ some e
    → (x : TraceabilityEdge) × (overridden d x ≡ e) × (accepts_edge (overridden d x) ≡ true)
validate_cell-eq d none e h = cc
validate_cell-eq d (some (text s)) e h = cc
validate_cell-eq d (some (moment n)) e h = cc
validate_cell-eq d (some (edge x)) e h =
    let (same, ok) = accepted-eq (overridden d x) e h in (x, same, ok)

same_status : (s : ApprovalStatus) → (if status_text s == "approved" then approved else s) ≡ s
same_status pending = refl
same_status approved = refl
same_status rejected = refl
same_status modified = refl
same_status expired = refl

reads_own_dump :
    (e : TraceabilityEdge)
    → accepts_edge e ≡ true
    → validate_cell (dump_edge e) (get (dump_edge e) "edge") ≡ some e
unfolding get
reads_own_dump e h = rw (same_status e.approval_status) (rw h refl)

reads_status :
    (d : Dict Cell) (e : TraceabilityEdge)
    → validate_cell d (get d "edge") ≡ some e
    → get d "approval_status" ≡ some (text "approved")
    → e.approval_status ≡ approved
reads_status d e h there = let (x, same, ok) = validate_cell-eq d (get d "edge") e h in cc

runs_validators :
    (d : Dict Cell) (e : TraceabilityEdge)
    → validate_cell d (get d "edge") ≡ some e
    → accepts_edge e ≡ true
runs_validators d e h = let (x, same, ok) = validate_cell-eq d (get d "edge") e h in cc

writes_status :
    (e : TraceabilityEdge)
    → e.approval_status ≡ approved
    → get (dump_edge e) "approval_status" ≡ some (text "approved")
unfolding get
writes_status e h = rw h refl

pub contracts-IsPydantic : IsPydantic contracts
contracts-IsPydantic = record {
  reads_status = reads_status;
  runs_validators = runs_validators;
  writes_status = writes_status;
  reads_own_dump = reads_own_dump;
}

abbrev pub evidence_span : EvidenceSpan
evidence_span = record {
  artifact_id = "art_1";
  source_url = "jira://SYS-1";
  quote_hash = "q1";
  extracted_text_preview = "The pump shall stop.";
  start_offset = some 0;
  end_offset = some 20;
  section_path = none;
  table_cell_ref = none;
}

abbrev pub inferred_edge : TraceabilityEdge
inferred_edge = record {
  edge_id = "edge_1";
  source_node_id = "req_1";
  target_node_id = "arch_1";
  relation = satisfies;
  reasoning = "shared terms";
  evidence = evidence_span ∷ [];
  is_inferred = true;
  confidence_score = 72;
  approval_status = pending;
  approved_by = none;
  approved_at = none;
  version = 1;
}

abbrev pub empty_desk : Desk contracts
empty_desk = record {
  service = record { items = []; deltas = []; feedback = [] };
  graph = empty_graph;
}

abbrev pub item_with : ApprovalItemStatus → ApprovalItem
item_with status = record {
  approval_id = "apv_1";
  project_key = "SYS";
  proposal_type = ProposalType.edge;
  proposal_ref = "edge_1";
  graph_delta_ref = none;
  status = status;
  risk_level = medium;
  owner_role = "System Architect";
  created_from_run_id = "run_1";
  created_from_step_id = "step_1";
  proposal_hash = "h1";
  version = 1;
  created_at = 100;
  updated_at = 100;
}

abbrev pub desk_with : ApprovalItem → Desk contracts
desk_with item = record {
  service = record { items = ("apv_1", item) ∷ []; deltas = []; feedback = [] };
  graph = empty_graph;
}

abbrev pub decision_on : String → DecisionAction → ApprovalDecision Cell
decision_on approval_id action = record {
  approval_id = approval_id;
  action = action;
  decided_by = "reviewer";
  expected_version = some 1;
  expected_proposal_hash = none;
  decided_at = 200;
  correction_payload = none;
  reason_code = none;
}
