-- ===== src/Approvals/Service.antt =====
-- src/req_tracker/approvals/service.py, and src/req_tracker/reasoning/scoring.py by which it rates
-- a proposal. `decide` changes the service and the graph that it is given: its state is both.
pub mod Stamps
pub mod Risk
use se_1_rune_agent.Base.{
  ℕ, ◌+◌, String, Bool, true, false, Option, none, some, List, [], ◌∷◌, ◌++◌, ◌==◌, ◌||◌,
  if◌then◌else◌, eqb, ltb, or_text, truthy, not, and_then,
}
use se_1_rune_agent.Base.Dict.{Dict, get, put}
use se_1_rune_agent.Base.Text.{concat, decimal, head_of}
use se_1_rune_agent.Exec.{
  Exec, Exception, validation_error, key_error, require, pure, modify, get_state, zoom, ◌>>=◌, ◌>>◌,
}
use se_1_rune_agent.Ontology.{
  EdgeRelation, conflicts_with, supersedes, ApprovalStatus, TraceabilityEdge, is_nil,
}
use se_1_rune_agent.Feedback.{FeedbackTargetType, FeedbackAction, FeedbackEvent}
use se_1_rune_agent.Approvals.{
  ProposalType, ApprovalItemStatus, pending, approved, rejected, modified_approved, held, stale,
  RiskLevel, high, medium, low, DecisionAction, approve, reject, modify as modify_action, hold,
  GraphOperation, create_edge, GraphDeltaOperation, GraphDelta, ApprovalItem, ApprovalDecision,
}
use se_1_rune_agent.Approvals.Contracts.{Contracts}
use se_1_rune_agent.Graph.Memory.{MemoryGraphBackend, apply_delta}

abbrev is_contested : EdgeRelation → Bool
is_contested conflicts_with = true
is_contested supersedes = true
is_contested _ = false

-- The bounds 0.5 and 0.85 in hundredths.
unfoldable pub approval_risk_for_edge : TraceabilityEdge → RiskLevel
approval_risk_for_edge edge =
    if ltb edge.confidence_score 50
    then high
    else if is_contested edge.relation
    then high
    else if edge.is_inferred || ltb edge.confidence_score 85
    then medium
    else low

abbrev pub is_pending : ApprovalItemStatus → Bool
is_pending pending = true
is_pending _ = false

unfoldable pub feedback_action : ApprovalItemStatus → FeedbackAction
feedback_action approved = FeedbackAction.approved
feedback_action modified_approved = FeedbackAction.modified
feedback_action held = FeedbackAction.commented
feedback_action _ = FeedbackAction.rejected

abbrev differs : Option ℕ → ℕ → Bool
differs none n = false
differs (some m) n = not (eqb m n)

abbrev differs_text : Option String → String → Bool
differs_text none s = false
differs_text (some r) s = not (r == s)

unfoldable pub is_stale_decision : {V : Type 0} → ApprovalItem → ApprovalDecision V → Bool
is_stale_decision item decision =
    differs decision.expected_version item.version
    || differs_text decision.expected_proposal_hash item.proposal_hash

-- `payload.update(correction)`
unfoldable pub update_payload : {V : Type 0} → Dict V → Dict V → Dict V
update_payload d [] = d
update_payload d ((k, v) ∷ r) = update_payload (put d k v) r

abbrev pub corrections : {V : Type 0} → Option (Dict V) → Dict V
corrections none = []
corrections (some d) = d

module _ (c : Contracts) where
  pub record ApprovalService : Type 0 where
    pub items : Dict ApprovalItem
    pub deltas : Dict (GraphDelta c.Value)
    pub feedback : List FeedbackEvent

  pub record Desk : Type 0 where
    pub service : ApprovalService
    pub graph : MemoryGraphBackend

module _ (c : Contracts) where
  abbrev pub approve_by_system : TraceabilityEdge → TraceabilityEdge
  approve_by_system edge = record edge {
    approval_status = ApprovalStatus.approved;
    approved_by = some "system";
  }

  unfoldable pub staged_delta : String → String → String → TraceabilityEdge → GraphDelta c.Value
  staged_delta project_key run_id step_id edge = record {
    delta_id = concat ("delta_" ∷ edge.edge_id ∷ []);
    project_key = project_key;
    operations =
        record {
          operation = create_edge;
          target_id = edge.edge_id;
          payload = c.dump_edge (approve_by_system edge);
        }
        ∷ [];
    created_from_run_id = run_id;
    created_from_step_id = step_id;
  }

  unfoldable pub staged_item : ℕ → String → String → String → TraceabilityEdge → ApprovalItem
  staged_item now project_key run_id step_id edge = record {
    approval_id = concat ("apv_" ∷ head_of 16 (c.hash_edge edge) ∷ []);
    project_key = project_key;
    proposal_type = ProposalType.edge;
    proposal_ref = edge.edge_id;
    graph_delta_ref = some (concat ("delta_" ∷ edge.edge_id ∷ []));
    status = pending;
    risk_level = approval_risk_for_edge edge;
    owner_role = "System Architect";
    created_from_run_id = run_id;
    created_from_step_id = step_id;
    proposal_hash = c.hash_edge edge;
    version = 1;
    created_at = now;
    updated_at = now;
  }

  -- The approvals that `stage_edges` returns are the items that it stores.
  unfoldable pub stage_edges :
      ℕ → String → String → String → List TraceabilityEdge → ApprovalService c → ApprovalService c
  unfolding staged_item staged_delta
  stage_edges now project_key run_id step_id [] s = s
  stage_edges now project_key run_id step_id (edge ∷ edges) s =
      let item = staged_item now project_key run_id step_id edge in
      let delta = staged_delta project_key run_id step_id edge in
      stage_edges now project_key run_id step_id edges (record s {
        items = put s.items item.approval_id item;
        deltas = put s.deltas delta.delta_id delta;
      })

  -- The loop body of `_modified_delta`: the approval fields are set after the correction.
  approved_payload : ApprovalDecision c.Value → Dict c.Value → Dict c.Value
  approved_payload decision payload =
      put
        (put (put payload "approval_status" (c.text "approved")) "approved_by"
          (c.text decision.decided_by))
        "approved_at" (c.moment decision.decided_at)

  modified_payload :
      GraphOperation → ApprovalDecision c.Value → Dict c.Value → Option (Dict c.Value)
  unfolding approved_payload update_payload
  modified_payload create_edge decision payload =
      let corrected = update_payload payload (corrections decision.correction_payload) in
      and_then (c.validate_edge (approved_payload decision corrected))
        (λ edge. some (c.dump_edge edge))
  modified_payload _ decision payload =
      some (update_payload payload (corrections decision.correction_payload))

  modified_operations :
      ApprovalDecision c.Value
      → List (GraphDeltaOperation c.Value)
      → Option (List (GraphDeltaOperation c.Value))
  unfolding modified_payload
  modified_operations decision [] = some []
  modified_operations decision (op ∷ ops) =
      let rest = modified_operations decision ops in
      and_then (modified_payload op.operation decision op.payload)
        λ payload. and_then rest (λ later. some (record op { payload = payload } ∷ later))

  -- `_modified_delta`, from the original delta that it looks up; `none` is its ValidationError.
  unfoldable pub modified_delta :
      ApprovalItem → ApprovalDecision c.Value → GraphDelta c.Value → Option (GraphDelta c.Value)
  unfolding modified_operations
  modified_delta item decision original =
      and_then (modified_operations decision original.operations) λ ops. some (record original {
        delta_id = concat (original.delta_id ∷ "_modified_v" ∷ decimal item.version ∷ []);
        operations = ops;
      })
