-- ===== src/Api/Approvals.antt =====
-- src/req_tracker/api/routes/approvals.py: the queue as the API shows it, and the decision command.
pub mod Retry
pub mod Again
mod Witnesses
use se_1_rune_agent.Base.{
  ℕ, String, Bool, true, false, not, Option, none, some, List, [], ◌∷◌, ◌==◌, select, map,
  if◌then◌else◌,
}
use se_1_rune_agent.Base.Dict.{Dict, get, values, has_key}
use se_1_rune_agent.Exec.{
  Exec, Result, ok, raised, http_exception, pure, modify, get_state, require, raise_if, ◌>>=◌, ◌>>◌,
}
use se_1_rune_agent.Approvals.{
  ApprovalItemStatus, pending, approved, rejected, modified_approved, held, stale, DecisionAction,
  approve, reject, modify as modify_action, hold, ApprovalItem, ApprovalDecision,
}
use se_1_rune_agent.Approvals.Contracts.{Contracts}
use se_1_rune_agent.Approvals.Decision.{decide}
use se_1_rune_agent.Audit.{
  AuditOutcome, approval_decided, succeeded, blocked, Entry, Fingerprint, text, number,
  text_or_none, number_or_none,
}
use se_1_rune_agent.Api.Security.{Headers, Settings, UserContext, require_project}
use se_1_rune_agent.Api.Idempotency.{KeyHeaders, IdempotencyContext, prepare_idempotency}
use se_1_rune_agent.Api.Runtime.{
  RuntimeState, persist_approval_state, record_idempotency_response, on_desk, audit_record,
}

-- A request: its headers, and the digest of the command with the fields that the client gave.
pub record Request : Type 0 where
  pub headers : Headers
  pub keys : KeyHeaders
  pub payload_hash : String

abbrev pub lift : {S A : Type 0} → Result A → Exec S A
lift r s = (r, s)

abbrev status_name : ApprovalItemStatus → String
status_name pending = "pending"
status_name approved = "approved"
status_name rejected = "rejected"
status_name modified_approved = "modified_approved"
status_name held = "held"
status_name stale = "stale"

abbrev action_name : DecisionAction → String
action_name approve = "approve"
action_name reject = "reject"
action_name modify_action = "modify"
action_name hold = "hold"

abbrev outcome_of : ApprovalItemStatus → AuditOutcome
outcome_of stale = blocked
outcome_of _ = succeeded

module _ (c : Contracts) {R : Type 0} (dump_item : ApprovalItem → R)
    (stable_hash : Fingerprint → String) where
  -- `list_approvals`
  unfoldable pub list_approvals :
      Settings → Request → Option String → Exec (RuntimeState c R) (List R)
  list_approvals settings request project_key = do
    user ← lift (require_project settings request.headers project_key "developer")
    s ← get_state
    let items = values s.desk.service.items
    pure (
        map dump_item (elim project_key [
          | none ↦ items
          | some key ↦ select (λ item. item.project_key == key) items
        ]))

  unfoldable pub decision_entry : ApprovalDecision c.Value → ApprovalItem → Entry
  decision_entry decision item = record {
    action = approval_decided;
    actor_id = decision.decided_by;
    actor_role = some item.owner_role;
    project_key = some item.project_key;
    target_type = "approval";
    target_id = decision.approval_id;
    outcome = outcome_of item.status;
    reason_code = decision.reason_code;
    metadata =
        ("decision_action", text (action_name decision.action))
        ∷ ("result_status", text (status_name item.status))
        ∷ ("proposal_ref", text item.proposal_ref)
        ∷ ("expected_version", number_or_none decision.expected_version)
        ∷ ("actual_version", number item.version)
        ∷ ("expected_proposal_hash", text_or_none decision.expected_proposal_hash)
        ∷ [];
  }

  -- The response, kept under the key of the request.
  unfoldable pub keep_answer : ApprovalItem → IdempotencyContext R → Exec (RuntimeState c R) R
  keep_answer item context = do
    modify (
        record_idempotency_response context "approvals.decision" (some item.project_key)
          (dump_item item))
    pure (dump_item item)

  -- What follows a decision that returned.
  unfoldable pub file_decision :
      ℕ → ApprovalDecision c.Value → IdempotencyContext R → ApprovalItem → Exec (RuntimeState c R) R
  unfolding keep_answer
  file_decision now decision context item = do
    modify (audit_record stable_hash now (decision_entry decision item))
    persist_approval_state
    keep_answer item context

  -- The command, once no response is cached for it.
  unfoldable pub run_decision :
      ℕ → ApprovalDecision c.Value → IdempotencyContext R → Exec (RuntimeState c R) R
  unfolding file_decision
  run_decision now decision context = do
    item ← on_desk (decide c now decision)
    file_decision now decision context item

  unfoldable pub answer :
      ℕ → ApprovalDecision c.Value → IdempotencyContext R → Exec (RuntimeState c R) R
  unfolding run_decision
  answer now decision context = elim context.cached_response [
    | some response ↦ pure response
    | none ↦ run_decision now decision context
  ]

  -- `decide_approval`
  unfoldable pub decide_approval :
      ℕ → Settings → Request → String → ApprovalDecision c.Value → Exec (RuntimeState c R) R
  unfolding answer
  decide_approval now settings request approval_id decision = do
    raise_if (not (decision.approval_id == approval_id)) (http_exception 400 "approval_id mismatch")
    s ← get_state
    item ← require (http_exception 404 "approval not found") (get s.desk.service.items approval_id)
    user ← lift (require_project settings request.headers (some item.project_key) "operator")
    context ← lift (
        prepare_idempotency request.keys s.idempotency_results "approvals.decision"
          request.payload_hash)
    answer now decision context
