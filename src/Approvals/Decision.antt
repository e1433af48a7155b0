-- ===== src/Approvals/Decision.antt =====
-- `ApprovalService.decide` of src/req_tracker/approvals/service.py.
pub mod Final
pub mod Outcome
pub mod Safety
pub mod Effects
use se_1_rune_agent.Base.{
  ℕ, ◌+◌, String, Bool, true, false, Option, none, some, [], ◌∷◌, ◌++◌, if◌then◌else◌, or_text,
  truthy, ◌&&◌,
}
use se_1_rune_agent.Base.Dict.{Dict, get, put}
use se_1_rune_agent.Base.Text.{concat, decimal, head_of}
use se_1_rune_agent.Exec.{
  Exec, validation_error, key_error, require, pure, modify, get_state, zoom, ◌>>=◌, ◌>>◌,
}
use se_1_rune_agent.Feedback.{
  FeedbackTargetType, FeedbackReasonCode, FeedbackEvent, read_reason_code,
}
use se_1_rune_agent.Approvals.{
  ApprovalItemStatus, approved, rejected, modified_approved, held, stale, DecisionAction, approve,
  reject, hold, GraphDelta, ApprovalItem, ApprovalDecision,
}
use se_1_rune_agent.Approvals.Contracts.{Contracts}
use se_1_rune_agent.Approvals.Service.{
  ApprovalService, Desk, is_pending, feedback_action, is_stale_decision, modified_delta,
}
use se_1_rune_agent.Graph.Memory.{MemoryGraphBackend, apply_delta}

abbrev pub has_entries : {V : Type 0} → Option (Dict V) → Bool
has_entries none = false
has_entries (some []) = false
has_entries (some (_ ∷ _)) = true

module _ (c : Contracts) where
  unfoldable pub correction_text : Option (Dict c.Value) → Option String
  correction_text none = none
  correction_text (some []) = none
  correction_text (some (entry ∷ entries)) = some (c.dump_json (entry ∷ entries))

  abbrev pub keep_item : ApprovalItem → Desk c → Desk c
  keep_item item desk = record desk {
    service = record (desk.service) { items = put desk.service.items item.approval_id item };
  }

  abbrev pub keep_delta : GraphDelta c.Value → Desk c → Desk c
  keep_delta delta desk = record desk {
    service = record (desk.service) { deltas = put desk.service.deltas delta.delta_id delta };
  }

  abbrev pub keep_feedback : FeedbackEvent → Desk c → Desk c
  keep_feedback event desk = record desk {
    service = record (desk.service) { feedback = desk.service.feedback ++ event ∷ [] };
  }

  -- `self.deltas[ref]`
  abbrev find_delta : String → Exec (Desk c) (GraphDelta c.Value)
  find_delta ref = do desk ← get_state; require (key_error ref) (get desk.service.deltas ref)

  abbrev apply_to_graph : GraphDelta c.Value → String → Exec (Desk c) (Unit {0})
  apply_to_graph delta key =
      zoom (λ desk. desk.graph) (λ g desk. record desk { graph = g }) (apply_delta c delta key)

  abbrev file_modified :
      ApprovalItem
      → ApprovalDecision c.Value
      → GraphDelta c.Value
      → Exec (Desk c) ApprovalItemStatus
  file_modified item decision delta = do
    modify (keep_delta delta)
    apply_to_graph delta
        (concat (decision.approval_id ∷ ":" ∷ decimal item.version ∷ ":modify" ∷ []))
    pure modified_approved

  abbrev apply_correction :
      ApprovalItem → ApprovalDecision c.Value → Exec (Desk c) ApprovalItemStatus
  apply_correction item decision = do
    original ← find_delta (or_text item.graph_delta_ref "")
    delta ← require validation_error (modified_delta c item decision original)
    file_modified item decision delta

  -- The last branch of `decide`: a `modify`, and an `approve` of an item with no delta.
  carry_out_modified : ApprovalItem → ApprovalDecision c.Value → Exec (Desk c) ApprovalItemStatus
  carry_out_modified item decision =
      if truthy item.graph_delta_ref && has_entries decision.correction_payload
      then apply_correction item decision
      else pure modified_approved

  carry_out_approved : ApprovalItem → ApprovalDecision c.Value → Exec (Desk c) ApprovalItemStatus
  carry_out_approved item decision = do
    delta ← find_delta (or_text item.graph_delta_ref "")
    apply_to_graph delta (concat (decision.approval_id ∷ ":" ∷ decimal item.version ∷ []))
    pure approved

  pub carry_out :
      DecisionAction → ApprovalItem → ApprovalDecision c.Value → Exec (Desk c) ApprovalItemStatus
  unfolding carry_out_modified carry_out_approved
  carry_out approve item decision =
      if truthy item.graph_delta_ref
      then carry_out_approved item decision
      else carry_out_modified item decision
  carry_out reject item decision = pure rejected
  carry_out hold item decision = pure held
  carry_out _ item decision = carry_out_modified item decision

  abbrev pub settled : ℕ → ApprovalItemStatus → ApprovalItem → ApprovalItem
  settled now status item = record item {
    status = status;
    version = item.version + 1;
    updated_at = now;
  }

  abbrev event_with :
      ℕ
      → ApprovalItemStatus
      → ApprovalItem
      → ApprovalDecision c.Value
      → Option FeedbackReasonCode
      → FeedbackEvent
  event_with now status item decision reason_code = record {
    feedback_id = concat ("fb_" ∷ head_of 16 (c.hash_decision decision) ∷ []);
    target_type = FeedbackTargetType.edge;
    target_id = item.proposal_ref;
    action = feedback_action status;
    user_id = decision.decided_by;
    user_role = item.owner_role;
    reason_code = reason_code;
    correction_text = correction_text decision.correction_payload;
    created_at = now;
    model_profile_id = none;
    prompt_version_id = none;
  }

  -- The event of a decision; `none` is the ValidationError of a reason that is not in the taxonomy.
  unfoldable pub decision_event :
      ℕ → ApprovalItemStatus → ApprovalItem → ApprovalDecision c.Value → Option FeedbackEvent
  unfolding correction_text feedback_action
  decision_event now status item decision = elim (read_reason_code c.lower decision.reason_code) [
    | none ↦ none
    | some reason_code ↦ some (event_with now status item decision reason_code)
  ]

  -- The event is constructed after the item is stored: where that raises, the item stays settled.
  abbrev pub file_feedback :
      ℕ → ApprovalItemStatus → ApprovalItem → ApprovalDecision c.Value → Exec (Desk c) ApprovalItem
  file_feedback now status item decision = do
    event ← require validation_error (decision_event now status item decision)
    modify (keep_feedback event)
    pure (settled now status item)

  -- A pending item with a decision that is not stale.
  settle : ℕ → ApprovalItem → ApprovalDecision c.Value → Exec (Desk c) ApprovalItem
  unfolding carry_out
  settle now item decision = do
    status ← carry_out decision.action item decision
    modify (keep_item (settled now status item))
    file_feedback now status item decision

  expire : ℕ → ApprovalItem → Exec (Desk c) ApprovalItem
  expire now item = do modify (keep_item (settled now stale item)); pure (settled now stale item)

  unfoldable pub decide_item :
      ℕ → ApprovalItem → ApprovalDecision c.Value → Exec (Desk c) ApprovalItem
  unfolding settle expire
  decide_item now item decision =
      if is_pending item.status
      then (if is_stale_decision item decision then expire now item else settle now item decision)
      else pure item

  -- `now` stands for the calls of `datetime.now(UTC)`.
  unfoldable pub decide : ℕ → ApprovalDecision c.Value → Exec (Desk c) ApprovalItem
  unfolding decide_item
  decide now decision = do
    desk ← get_state
    item ← require (key_error decision.approval_id) (get desk.service.items decision.approval_id)
    decide_item now item decision
