-- ===== src/Approvals/Decision/Final.antt =====
-- Decisions and the items of the queue that are not pending.
use se_1_rune_agent.Base.{
  ℕ, String, false, some, List, [], ◌∷◌, ◌==◌, ◌≡◌, refl, ap, ◌∙◌, arith, eq_iff, Bool-cases, inl,
  inr,
}
use se_1_rune_agent.Base.Dict.{get, get-put_ne, Keyed, put-Keyed}
use se_1_rune_agent.Exec.{
  Exec, Result, ok, key_error, validation_error, Leaves, continue_ind, require_ind, if_ind,
}
use se_1_rune_agent.Feedback.{FeedbackEvent}
use se_1_rune_agent.Approvals.{
  ApprovalItemStatus, stale, DecisionAction, approve, reject, hold, modify, ApprovalItem,
  ApprovalDecision,
}
use se_1_rune_agent.Approvals.Contracts.{Contracts}
use se_1_rune_agent.Approvals.Service.{Desk, is_pending, is_stale_decision}
use se_1_rune_agent.Approvals.Decision.{
  carry_out, carry_out_modified, carry_out_approved, decide_item, decide, keep_item, keep_feedback,
  settled, file_feedback, decision_event,
}

module _ (c : Contracts) where
  -- What recording the feedback keeps of the desk, also where the event cannot be constructed.
  pub file_feedback_keeps :
      (P : Desk c → Type 0) (now : ℕ) (status : ApprovalItemStatus) (item : ApprovalItem)
      (d : ApprovalDecision c.Value) (desk : Desk c)
      → P desk
      → ((event : FeedbackEvent) → P (keep_feedback c event desk))
      → Leaves P (file_feedback c now status item d desk)
  file_feedback_keeps P now status item d desk p q =
      require_ind (Leaves P) validation_error (decision_event c now status item d) _ desk
        (λ event _. q event) (λ _. p)

  -- The dict of items is keyed by their own ids.
  pub record IsKeyed (desk : Desk c) : Type 0 where
    pub at_key : Keyed (λ item. item.approval_id) desk.service.items

  abbrev pub SameQueue : Desk c → Desk c → Type 0
  SameQueue a b = (a.service.items ≡ b.service.items) × (a.service.feedback ≡ b.service.feedback)

  carry_out_modified-SameQueue :
      (item : ApprovalItem) (d : ApprovalDecision c.Value) (desk : Desk c)
      → SameQueue (carry_out_modified c item d desk).1 desk
  unfolding carry_out_modified
  carry_out_modified-SameQueue item d desk = ground arith

  carry_out_approved-SameQueue :
      (item : ApprovalItem) (d : ApprovalDecision c.Value) (desk : Desk c)
      → SameQueue (carry_out_approved c item d desk).1 desk
  unfolding carry_out_approved
  carry_out_approved-SameQueue item d desk = ground arith

  pub carry_out-SameQueue :
      (a : DecisionAction) (item : ApprovalItem) (d : ApprovalDecision c.Value) (desk : Desk c)
      → SameQueue (carry_out c a item d desk).1 desk
  unfolding carry_out
  carry_out-SameQueue approve item d desk =
      ground
        (arith, carry_out_approved-SameQueue item d desk, carry_out_modified-SameQueue item d desk)
  carry_out-SameQueue reject item d desk = ground arith
  carry_out-SameQueue hold item d desk = ground arith
  carry_out-SameQueue modify item d desk = carry_out_modified-SameQueue item d desk

  abbrev SameAt : {A : Type 0} → String → Desk c → Result A × Desk c → Type 0
  SameAt k before p = get p.1.service.items k ≡ get before.service.items k

  -- The entry of another id.
  items-decide_item :
      (now : ℕ) (item : ApprovalItem) (d : ApprovalDecision c.Value) (desk : Desk c) (k : String)
      → (item.approval_id == k) ≡ false
      → get (decide_item c now item d desk).1.service.items k ≡ get desk.service.items k
  unfolding decide_item
  items-decide_item now item d desk k ne =
      if_ind (λ (m : Exec (Desk c) ApprovalItem). SameAt k desk (m desk)) (is_pending item.status)
        (λ _.
          if_ind (λ (m : Exec (Desk c) ApprovalItem). SameAt k desk (m desk))
            (is_stale_decision item d) (λ _. get-put_ne desk.service.items _ k _ ne)
            (λ _.
              let (r, desk') = carry_out c d.action item d desk in
              let same = (carry_out-SameQueue d.action item d desk).0 in
              continue_ind (SameAt k desk) r _ desk'
                (λ status _.
                  let other = get-put_ne desk'.service.items _ k _ ne ∙ ap (λ m. get m k) same in
                  file_feedback_keeps (λ s. get s.service.items k ≡ get desk.service.items k) now
                    status item d (keep_item c (settled c now status item) desk') other
                    (λ _. other))
                (λ _ _. ap (λ m. get m k) same)))
        (λ _. refl)

  decide_item_closed :
      (now : ℕ) (item : ApprovalItem) (d : ApprovalDecision c.Value) (desk : Desk c)
      → is_pending item.status ≡ false
      → decide_item c now item d desk ≡ (ok item, desk)
  unfolding decide_item
  decide_item_closed now item d desk h = rw h

  keep_item-IsKeyed :
      (desk : Desk c) (item : ApprovalItem) → IsKeyed desk → IsKeyed (keep_item c item desk)
  keep_item-IsKeyed desk item h = record {
    at_key = put-Keyed (λ i. i.approval_id) desk.service.items item h.at_key;
  }

  carry_out-IsKeyed :
      (a : DecisionAction) (item : ApprovalItem) (d : ApprovalDecision c.Value) (desk : Desk c)
      → IsKeyed desk
      → IsKeyed (carry_out c a item d desk).1
  carry_out-IsKeyed a item d desk h = record {
    at_key = rw ((carry_out-SameQueue a item d desk).0) h.at_key;
  }

  decide_item-IsKeyed :
      (now : ℕ) (item : ApprovalItem) (d : ApprovalDecision c.Value) (desk : Desk c)
      → IsKeyed desk
      → Leaves IsKeyed (decide_item c now item d desk)
  unfolding decide_item
  decide_item-IsKeyed now item d desk h =
      if_ind (λ (m : Exec (Desk c) ApprovalItem). Leaves IsKeyed (m desk)) (is_pending item.status)
        (λ _.
          if_ind (λ (m : Exec (Desk c) ApprovalItem). Leaves IsKeyed (m desk))
            (is_stale_decision item d) (λ _. keep_item-IsKeyed desk (settled c now stale item) h)
            (λ _.
              let (r, desk') = carry_out c d.action item d desk in
              let h' = carry_out-IsKeyed d.action item d desk h in
              continue_ind (Leaves IsKeyed) r _ desk'
                (λ status _.
                  let kept = keep_item-IsKeyed desk' (settled c now status item) h' in
                  file_feedback_keeps IsKeyed now status item d
                    (keep_item c (settled c now status item) desk') kept
                    (λ event. record { at_key = kept.at_key }))
                (λ _ _. h')))
        (λ _. h)

  pub decide-IsKeyed :
      (now : ℕ) (d : ApprovalDecision c.Value) (desk : Desk c)
      → IsKeyed desk
      → Leaves IsKeyed (decide c now d desk)
  unfolding decide
  decide-IsKeyed now d desk h =
      require_ind (Leaves IsKeyed) (key_error d.approval_id) (get desk.service.items d.approval_id)
        (λ item. decide_item c now item d) desk (λ item _. decide_item-IsKeyed now item d desk h)
        (λ _. h)

  closed-decide :
      (now : ℕ) (d : ApprovalDecision c.Value) (desk : Desk c) (k : String) (item : ApprovalItem)
      → IsKeyed desk
      → get desk.service.items k ≡ some item
      → is_pending item.status ≡ false
      → get (decide c now d desk).1.service.items k ≡ some item
  unfolding decide
  closed-decide now d desk k item keyed there closed =
      require_ind (Leaves (λ s. get s.service.items k ≡ some item)) (key_error d.approval_id)
        (get desk.service.items d.approval_id) (λ i. decide_item c now i d) desk
        (λ i e. elim (Bool-cases (i.approval_id == k)) [
          | inl same ↦
              let j : i ≡ item =
                ground (arith, eq_iff i.approval_id k, keyed.at_key d.approval_id i e) in
              rw j (rw (decide_item_closed now item d desk closed) there)
          | inr other ↦ items-decide_item now i d desk k other ∙ there
        ])
        (λ _. there)

  -- Decisions handled one after the other; one that raises ends only itself.
  pub decide_each : List (ℕ × ApprovalDecision c.Value) → Desk c → Desk c
  decide_each [] desk = desk
  decide_each ((now, d) ∷ ds) desk = decide_each ds (decide c now d desk).1

  -- In a queue that is keyed by the items' own ids, an item that is not pending stays as it is,
  -- with its status and version, whatever decisions follow, on it or on other items.
  pub closed-decide_each :
      (ds : List (ℕ × ApprovalDecision c.Value)) (desk : Desk c) (k : String) (item : ApprovalItem)
      → IsKeyed desk
      → get desk.service.items k ≡ some item
      → is_pending item.status ≡ false
      → get (decide_each ds desk).service.items k ≡ some item
  unfolding decide_each
  closed-decide_each [] desk k item keyed there closed = there
  closed-decide_each ((now, d) ∷ ds) desk k item keyed there closed =
      closed-decide_each ds (decide c now d desk).1 k item (decide-IsKeyed now d desk keyed)
        (closed-decide now d desk k item keyed there closed) closed
