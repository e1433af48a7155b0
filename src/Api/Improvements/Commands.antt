-- ===== src/Api/Improvements/Commands.antt =====
-- src/req_tracker/api/routes/feedback.py: the commands that record feedback, and promote an
-- improvement and roll it back.
use se_1_rune_agent.Base.{ℕ, String, not, Option, none, some, List, [], ◌∷◌, ◌++◌, or_text}
use se_1_rune_agent.Base.Dict.{Dict}
use se_1_rune_agent.Exec.{
  Exec, http_exception, pure, modify, get_state, require, raise_if, ◌>>=◌, ◌>>◌,
}
use se_1_rune_agent.Feedback.{
  FeedbackTargetType, FeedbackAction, FeedbackEvent, rolled_back, node, edge, finding, answer,
  run_step, ImprovementCandidate, name_or_none,
}
use se_1_rune_agent.Feedback.Candidates.{build_improvement_candidates, type_name}
use se_1_rune_agent.Evals.{default_policy, build_eval_candidates, run_local_eval_gate}
use se_1_rune_agent.Approvals.Contracts.{Contracts}
use se_1_rune_agent.Audit.{
  Object, text, AuditAction, feedback_recorded, improvement_activated, improvement_rolled_back,
  succeeded, Entry, Fingerprint,
}
use se_1_rune_agent.Api.Security.{UserContext, Settings, require_role}
use se_1_rune_agent.Api.Idempotency.{IdempotencyContext, prepare_idempotency}
use se_1_rune_agent.Api.Runtime.{
  RuntimeState, persist_approval_state, record_idempotency_response, record_improvement_decision,
  audit_record,
}
use se_1_rune_agent.Api.Approvals.{Request, lift}
use se_1_rune_agent.Api.Improvements.{
  Promotion, Rollback, DecisionDump, is_rollbackable, activation_target_status, promotion_status,
  require_forward, find_candidate, is_gate_passed, apply_recorded_decision, previous_status,
  status_name, promoted,
}

abbrev target_name : FeedbackTargetType → String
target_name node = "node"
target_name edge = "edge"
target_name finding = "finding"
target_name answer = "answer"
target_name run_step = "run_step"

abbrev action_text : FeedbackAction → String
action_text FeedbackAction.approved = "approved"
action_text FeedbackAction.rejected = "rejected"
action_text FeedbackAction.modified = "modified"
action_text FeedbackAction.commented = "commented"
action_text FeedbackAction.marked_low_quality = "marked_low_quality"

unfoldable pub feedback_entry : FeedbackEvent → Entry
feedback_entry event = record {
  action = feedback_recorded;
  actor_id = event.user_id;
  actor_role = some event.user_role;
  project_key = none;
  target_type = target_name event.target_type;
  target_id = event.target_id;
  outcome = succeeded;
  reason_code = name_or_none event.reason_code;
  metadata =
      ("feedback_id", text event.feedback_id) ∷ ("action", text (action_text event.action)) ∷ [];
}

module _ (c : Contracts) {R : Type 0} (stable_hash : Fingerprint → String) where
  -- `runtime.approvals.feedback.append(event)`
  abbrev pub append_feedback : FeedbackEvent → RuntimeState c R → RuntimeState c R
  append_feedback event s = record s {
    desk = record (s.desk) {
      service = record (s.desk.service) { feedback = s.desk.service.feedback ++ event ∷ [] };
    };
  }

  keep_feedback_event :
      (now : ℕ)
      → IdempotencyContext R
      → (FeedbackEvent → R)
      → FeedbackEvent
      → Exec (RuntimeState c R) R
  keep_feedback_event now context dump_feedback event = do
    modify (append_feedback event)
    modify (audit_record stable_hash now (feedback_entry event))
    persist_approval_state
    modify (record_idempotency_response context "feedback.record" none (dump_feedback event))
    pure (dump_feedback event)

  -- `record_feedback`
  unfoldable pub record_feedback :
      (now : ℕ)
      → Settings
      → Request
      → (dump_feedback : FeedbackEvent → R) → FeedbackEvent
      → Exec (RuntimeState c R) R
  unfolding keep_feedback_event
  record_feedback now settings request dump_feedback event = do
    user ← lift (require_role settings request.headers "developer")
    s ← get_state
    context ← lift (
        prepare_idempotency request.keys s.idempotency_results "feedback.record"
          request.payload_hash)
    elim context.cached_response [
      | some response ↦ pure response
      | none ↦ keep_feedback_event now context dump_feedback event
    ]

module _ (c : Contracts) {R : Type 0} (dump : DecisionDump R) (stable_hash : Fingerprint → String)
    (hash_group : (reason_code candidate_type : String) → List String → String) where
  abbrev entry_of :
      (user_id : String) (role : Option String) (candidate_id : String)
      → AuditAction
      → Option String
      → Dict Object
      → Entry
  entry_of user_id role candidate_id action reason metadata = record {
    action = action;
    actor_id = user_id;
    actor_role = role;
    project_key = none;
    target_type = "improvement_candidate";
    target_id = candidate_id;
    outcome = succeeded;
    reason_code = reason;
    metadata = metadata;
  }

  -- The candidate under the id, with the decision that was recorded for it.
  abbrev pub current_candidate : String → RuntimeState c R → Option ImprovementCandidate
  current_candidate candidate_id s =
      elim (find_candidate candidate_id
        (build_improvement_candidates hash_group s.desk.service.feedback "local_active")) [
          | none ↦ none
          | some candidate ↦ some (apply_recorded_decision dump candidate s.improvement_decisions)
        ]

  -- The decision is recorded, audited and persisted, and its response kept for the key.
  unfoldable pub record_decision :
      (now : ℕ) (candidate_id command : String)
      → IdempotencyContext R
      → Entry
      → R
      → Exec (RuntimeState c R) R
  record_decision now candidate_id command context entry result = do
    modify (record_improvement_decision candidate_id result)
    modify (audit_record stable_hash now entry)
    persist_approval_state
    modify (record_idempotency_response context command none result)
    pure result

  unfoldable pub activate_with :
      (now : ℕ) (eval_run_id : String)
      → UserContext
      → Promotion
      → ImprovementCandidate
      → IdempotencyContext R
      → Exec (RuntimeState c R) R
  unfolding record_decision promoted
  activate_with now eval_run_id user promotion candidate context = do
    require_forward candidate.status (activation_target_status promotion)
    s ← get_state
    let gate =
        run_local_eval_gate (build_eval_candidates s.desk.service.feedback) eval_run_id
          default_policy
    raise_if (not (is_gate_passed gate.status)) (http_exception 409 "eval gate blocked activation")
    let after = promoted user promotion gate.eval_run_id candidate
    record_decision now candidate.candidate_id "improvements.activate" context
        (entry_of user.user_id (some user.role) candidate.candidate_id improvement_activated none (
          ("candidate_type", text (type_name candidate.candidate_type))
          ∷ ("promotion_status", text (promotion_status promotion))
          ∷ ("eval_run_id", text gate.eval_run_id)
          ∷ []))
        (dump.activation after gate (promotion_status promotion)
          (previous_status dump candidate.candidate_id s.improvement_decisions))

  -- `activate_improvement`; `eval_run_id` is the id that the settings give the gate's run.
  unfoldable pub activate_improvement :
      (now : ℕ) (eval_run_id : String)
      → Settings
      → Request
      → (candidate_id : String) → Promotion
      → Exec (RuntimeState c R) R
  unfolding activate_with
  activate_improvement now eval_run_id settings request candidate_id promotion = do
    user ← lift (require_role settings request.headers "admin")
    s ← get_state
    candidate ←
        require (http_exception 404 "improvement candidate not found")
          (current_candidate candidate_id s)
    context ← lift (
        prepare_idempotency request.keys s.idempotency_results "improvements.activate"
          request.payload_hash)
    elim context.cached_response [
      | some response ↦ pure response
      | none ↦ activate_with now eval_run_id user promotion candidate context
    ]

  unfoldable pub roll_back_with :
      (now : ℕ)
      → UserContext
      → Rollback
      → ImprovementCandidate
      → IdempotencyContext R
      → Exec (RuntimeState c R) R
  unfolding record_decision
  roll_back_with now user rollback candidate context = do
    raise_if (not (is_rollbackable candidate.status))
        (http_exception 409 "improvement is not rollbackable")
    let actor_id = or_text rollback.rolled_back_by user.user_id
    record_decision now candidate.candidate_id "improvements.rollback" context
        (entry_of actor_id (some user.role) candidate.candidate_id improvement_rolled_back
          (some rollback.reason_code)
          (("candidate_type", text (type_name candidate.candidate_type))
            ∷ ("previous_status", text (status_name candidate.status))
            ∷ ("restored_version_id", text candidate.before_version_id)
            ∷ []))
        (dump.rollback (record candidate { status = rolled_back }) candidate.status rollback
          actor_id)

  -- `rollback_improvement`
  unfoldable pub rollback_improvement :
      (now : ℕ)
      → Settings
      → Request
      → (candidate_id : String) → Rollback
      → Exec (RuntimeState c R) R
  unfolding roll_back_with
  rollback_improvement now settings request candidate_id rollback = do
    user ← lift (require_role settings request.headers "admin")
    s ← get_state
    candidate ←
        require (http_exception 404 "improvement candidate not found")
          (current_candidate candidate_id s)
    context ← lift (
        prepare_idempotency request.keys s.idempotency_results "improvements.rollback"
          request.payload_hash)
    elim context.cached_response [
      | some response ↦ pure response
      | none ↦ roll_back_with now user rollback candidate context
    ]
