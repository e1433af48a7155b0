-- ===== src/Approvals/Decision/Outcome.antt =====
-- What a decision ends in.
use se_1_rune_agent.Base.{
  ℕ, ◌+◌, String, true, false, none, some, ◌≡◌, ◌≢◌, ◌⊎◌, eq_false_of_ne, refl, arith, inl, inr,
}
use se_1_rune_agent.Base.Dict.{get, get-put_self}
use se_1_rune_agent.Exec.{
  Exec, Result, ok, raised, validation_error, continue_ind, require_ind, if_ind,
}
use se_1_rune_agent.Feedback.{read_reason_code}
use se_1_rune_agent.Approvals.{
  ApprovalItemStatus, stale, DecisionAction, approve, reject, hold, modify, ApprovalItem,
  ApprovalDecision,
}
use se_1_rune_agent.Approvals.Contracts.{Contracts}
use se_1_rune_agent.Approvals.Service.{Desk, is_pending, is_stale_decision}
use se_1_rune_agent.Approvals.Decision.{
  carry_out, carry_out_modified, carry_out_approved, decide_item, decide, keep_item, settled,
  file_feedback, decision_event,
}
use se_1_rune_agent.Approvals.Decision.Final.{SameQueue, carry_out-SameQueue}

module _ (c : Contracts) where
  -- The status that carrying out an action gives is never pending.
  carry_out_settles :
      (a : DecisionAction) (item : ApprovalItem) (d : ApprovalDecision c.Value) (desk : Desk c)
      (status : ApprovalItemStatus)
      → (carry_out c a item d desk).0 ≡ ok status
      → is_pending status ≡ false
  unfolding carry_out carry_out_modified carry_out_approved
  carry_out_settles approve item d desk status h = ground arith
  carry_out_settles reject item d desk status h = ground arith
  carry_out_settles hold item d desk status h = ground arith
  carry_out_settles modify item d desk status h = ground arith

  -- The queue holds `out`, which is the item once it is closed.
  abbrev pub Closes : ApprovalItem → Desk c → ApprovalItem → Type 0
  Closes item after out =
      (out.version ≡ item.version + 1)
      × (is_pending out.status ≡ false)
      × (get after.service.items item.approval_id ≡ some out)

  -- The reason that the reviewer gives is not in the taxonomy of the feedback.
  abbrev pub UnknownReason : ApprovalDecision c.Value → Type 0
  UnknownReason d = read_reason_code c.lower d.reason_code ≡ none

  -- What is left of a pending item and of the queue, by the result of the decision.
  abbrev pub PendingOutcome :
      ApprovalDecision c.Value → ApprovalItem → Desk c → Result ApprovalItem × Desk c → Type 0
  PendingOutcome d item before (ok out, after) = Closes item after out
  PendingOutcome d item before (raised e, after) =
      SameQueue c after before
      ⊎ UnknownReason d
        × (e ≡ validation_error)
        × (after.service.feedback ≡ before.service.feedback)
        × (out : ApprovalItem) × Closes item after out

  decision_event_raises :
      (now : ℕ) (status : ApprovalItemStatus) (item : ApprovalItem) (d : ApprovalDecision c.Value)
      → decision_event c now status item d ≡ none
      → UnknownReason d
  unfolding decision_event
  decision_event_raises now status item d h = ground arith

  file_feedback_outcome :
      (now : ℕ) (d : ApprovalDecision c.Value) (before desk : Desk c) (item : ApprovalItem)
      (status : ApprovalItemStatus)
      → is_pending status ≡ false
      → desk.service.feedback ≡ before.service.feedback
      → PendingOutcome d item before
          (file_feedback c now status item d (keep_item c (settled c now status item) desk))
  file_feedback_outcome now d before desk item status closed same =
      let out = settled c now status item in
      let there = get-put_self desk.service.items item.approval_id out in
      require_ind (PendingOutcome d item before) validation_error
        (decision_event c now status item d) _ (keep_item c out desk)
        (λ event _. (refl, closed, there))
        (λ e.
          inr (decision_event_raises now status item d e, refl, same, out, (refl, closed, there)))

  decide_item_outcome :
      (now : ℕ) (d : ApprovalDecision c.Value) (desk : Desk c) (item : ApprovalItem)
      → is_pending item.status ≡ true
      → PendingOutcome d item desk (decide_item c now item d desk)
  unfolding decide_item
  decide_item_outcome now d desk item p = rw p (
      if_ind (λ (m : Exec (Desk c) ApprovalItem). PendingOutcome d item desk (m desk))
        (is_stale_decision item d)
        (λ _. (refl, refl, get-put_self desk.service.items item.approval_id _))
        (λ _.
          let (r, desk') = carry_out c d.action item d desk in
          let same = carry_out-SameQueue c d.action item d desk in
          continue_ind (PendingOutcome d item desk) r _ desk'
            (λ status e.
              file_feedback_outcome now d desk desk' item status
                (carry_out_settles d.action item d desk status e) same.1)
            (λ _ _. inl same)))

  -- A decision on a pending item either returns the item with its version raised by one and a
  -- status that is not pending, and this is what the queue then holds under the item's id; or it
  -- raises, and the items and the feedback are those of before; or the reason that it gives is not
  -- in the taxonomy, and it raises a ValidationError when the queue already holds the item so
  -- settled, with the feedback of before.
  pub decide_outcome :
      (now : ℕ) (d : ApprovalDecision c.Value) (desk : Desk c) (item : ApprovalItem)
      → get desk.service.items d.approval_id ≡ some item
      → is_pending item.status ≡ true
      → PendingOutcome d item desk (decide c now d desk)
  unfolding decide
  decide_outcome now d desk item there p = rw there (decide_item_outcome now d desk item p)

  -- A decision that returns leaves the item that it returns in the queue, in the same project.
  abbrev pub Returned : ApprovalItem → Result ApprovalItem × Desk c → Type 0
  Returned item (ok out, after) =
      (get after.service.items item.approval_id ≡ some out) × (out.project_key ≡ item.project_key)
  Returned item (raised e, after) = Unit

  pub decide_item-Returned :
      (now : ℕ) (d : ApprovalDecision c.Value) (desk : Desk c) (item : ApprovalItem)
      → get desk.service.items item.approval_id ≡ some item
      → Returned item (decide_item c now item d desk)
  unfolding decide_item
  decide_item-Returned now d desk item there =
      if_ind (λ (m : Exec (Desk c) ApprovalItem). Returned item (m desk)) (is_pending item.status)
        (λ _.
          if_ind (λ (m : Exec (Desk c) ApprovalItem). Returned item (m desk))
            (is_stale_decision item d)
            (λ _. (get-put_self desk.service.items item.approval_id _, refl))
            (λ _.
              let (r, desk') = carry_out c d.action item d desk in
              continue_ind (Returned item) r _ desk'
                (λ status _.
                  require_ind (Returned item) validation_error (decision_event c now status item d)
                    _ (keep_item c (settled c now status item) desk')
                    (λ event _. (get-put_self desk'.service.items item.approval_id _, refl))
                    (λ _. tt))
                (λ _ _. tt)))
        (λ _. (there, refl))

  -- The reviewer names a version or a proposal hash that is not the item's.
  abbrev pub SawAnother : ApprovalItem → ApprovalDecision c.Value → Type 0
  SawAnother item d =
      ((v : ℕ) × (d.expected_version ≡ some v) × (v ≢ item.version))
      ⊎ ((h : String) × (d.expected_proposal_hash ≡ some h) × (h ≢ item.proposal_hash))

  is_stale_of_SawAnother :
      (item : ApprovalItem) (d : ApprovalDecision c.Value)
      → SawAnother item d
      → is_stale_decision item d ≡ true
  unfolding is_stale_decision
  is_stale_of_SawAnother item d (inl (v, e, ne)) = ground arith
  is_stale_of_SawAnother item d (inr (h, e, ne)) =
      ground (arith, eq_false_of_ne h item.proposal_hash ne)

  -- A decision on a pending item by a reviewer who saw another version or another proposal hash
  -- returns the item closed as stale, and this item is all that it changes: graph, deltas and
  -- feedback are those of before.
  pub decide_stale :
      (now : ℕ) (d : ApprovalDecision c.Value) (desk : Desk c) (item : ApprovalItem)
      → get desk.service.items d.approval_id ≡ some item
      → is_pending item.status ≡ true
      → SawAnother item d
      → decide c now d desk
        ≡ (ok (settled c now stale item), keep_item c (settled c now stale item) desk)
  unfolding decide decide_item
  decide_stale now d desk item there p saw =
      rw there (rw p (rw (is_stale_of_SawAnother item d saw)))
