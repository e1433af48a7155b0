-- ===== src/Api/Improvements.antt =====
-- src/req_tracker/api/routes/feedback.py: the stages of improvements, and what is stored of them.
pub mod Commands
pub mod Stages
pub mod Guard
mod Witnesses
use se_1_rune_agent.Base.{
  ℕ, String, Bool, true, false, not, Option, none, some, List, [], ◌∷◌, ◌++◌, ◌==◌, ltb, or_text,
  if◌then◌else◌,
}
use se_1_rune_agent.Base.Dict.{Dict, get}
use se_1_rune_agent.Exec.{
  Exec, Result, http_exception, pure, modify, get_state, require, raise_if, ◌>>=◌, ◌>>◌,
}
use se_1_rune_agent.Feedback.{
  FeedbackTargetType, FeedbackAction, FeedbackEvent, ImprovementStatus, draft, eval_running,
  review_ready, approved, rejected, canary, active, rolled_back, ImprovementCandidate, name_or_none,
}
use se_1_rune_agent.Feedback.Candidates.{build_improvement_candidates, type_name}
use se_1_rune_agent.Evals.{
  EvalGateResult, GateStatus, passed, blocked, default_policy, build_eval_candidates,
  run_local_eval_gate,
}
use se_1_rune_agent.Approvals.Contracts.{Contracts}
use se_1_rune_agent.Audit.{
  Object, text, AuditAction, feedback_recorded, improvement_activated, improvement_rolled_back,
  succeeded, Entry, Fingerprint, text_or_none,
}
use se_1_rune_agent.Api.Security.{UserContext, Settings, require_role}
use se_1_rune_agent.Api.Idempotency.{IdempotencyContext, prepare_idempotency}
use se_1_rune_agent.Api.Runtime.{
  RuntimeState, persist_approval_state, record_idempotency_response, record_improvement_decision,
  audit_record,
}
use se_1_rune_agent.Api.Approvals.{Request, lift}

-- `ImprovementActivationRequest`
pub record Promotion : Type 0 where
  pub reviewer_approved : Bool
  pub canary_passed : Bool

-- `ImprovementRollbackRequest`
pub record Rollback : Type 0 where
  pub rolled_back_by : Option String
  pub reason_code : String
  pub comment : Option String

-- The order of the stages; a closed candidate has none.
unfoldable pub stage_order : ImprovementStatus → ℕ
stage_order draft = 0
stage_order eval_running = 1
stage_order review_ready = 2
stage_order approved = 3
stage_order canary = 4
stage_order active = 5
stage_order rolled_back = 6
stage_order rejected = 6

abbrev pub is_closed : ImprovementStatus → Bool
is_closed rolled_back = true
is_closed rejected = true
is_closed _ = false

abbrev pub is_rollbackable : ImprovementStatus → Bool
is_rollbackable canary = true
is_rollbackable active = true
is_rollbackable _ = false

-- `_activation_target_status`
unfoldable pub activation_target_status : Promotion → ImprovementStatus
activation_target_status promotion =
    if not promotion.reviewer_approved
    then review_ready
    else if not promotion.canary_passed
    then canary
    else active

abbrev pub promotion_status : Promotion → String
promotion_status promotion =
    if not promotion.reviewer_approved
    then "review_required"
    else if not promotion.canary_passed
    then "canary_required"
    else "active"

-- `_require_forward_improvement_transition`
unfoldable pub require_forward :
    {S : Type 0} → ImprovementStatus → ImprovementStatus → Exec S (Unit {0})
unfolding stage_order
require_forward current target = do
  raise_if (is_closed current) (http_exception 409 "improvement candidate is closed")
  raise_if (ltb (stage_order target) (stage_order current))
      (http_exception 409 "improvement promotion cannot move backwards")

-- `_find_candidate`
unfoldable pub find_candidate : String → List ImprovementCandidate → Option ImprovementCandidate
find_candidate candidate_id [] = none
find_candidate candidate_id (item ∷ items) =
    if item.candidate_id == candidate_id then some item else find_candidate candidate_id items

abbrev pub is_gate_passed : GateStatus → Bool
is_gate_passed passed = true
is_gate_passed blocked = false

-- A decision as the response dict that is stored, and the fields that are read back from it.
pub record DecisionDump (R : Type 0) : Type 0 where
  pub activation :
      ImprovementCandidate → EvalGateResult → (promotion_status previous_status : String) → R
  pub rollback : ImprovementCandidate → ImprovementStatus → Rollback → (actor_id : String) → R
  pub status : R → ImprovementStatus
  pub status_text : R → String
  pub eval_run_id : R → Option String
  pub reviewed_by : R → Option String

module _ {R : Type 0} (dump : DecisionDump R) where
  -- `_apply_recorded_decision`
  unfoldable pub apply_recorded_decision : ImprovementCandidate → Dict R → ImprovementCandidate
  apply_recorded_decision candidate decisions = elim (get decisions candidate.candidate_id) [
    | none ↦ candidate
    | some decision ↦ record candidate {
      status = dump.status decision;
      eval_run_id = dump.eval_run_id decision;
      reviewed_by = dump.reviewed_by decision;
    }
  ]

  unfoldable pub previous_status : String → Dict R → String
  previous_status candidate_id decisions = elim (get decisions candidate_id) [
    | none ↦ "draft"
    | some decision ↦ dump.status_text decision
  ]

abbrev pub status_name : ImprovementStatus → String
status_name draft = "draft"
status_name eval_running = "eval_running"
status_name review_ready = "review_ready"
status_name approved = "approved"
status_name rejected = "rejected"
status_name canary = "canary"
status_name active = "active"
status_name rolled_back = "rolled_back"

-- The candidate as the promotion leaves it.
unfoldable pub promoted :
    UserContext → Promotion → String → ImprovementCandidate → ImprovementCandidate
unfolding activation_target_status
promoted user promotion eval_run_id candidate = record candidate {
  eval_run_id = some eval_run_id;
  status = activation_target_status promotion;
  reviewed_by = if promotion.reviewer_approved then some user.user_id else none;
}
