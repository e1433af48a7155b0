-- ===== src/Approvals/Witnesses.antt =====
-- The queue and the graph on concrete inputs.
use se_1_rune_agent.Base.{ℕ, false, none, some, [], ◌∷◌, ◌≡◌, ◌≢◌, refl, inl, arith, eq_iff}
use se_1_rune_agent.Base.Dict.{get}
use se_1_rune_agent.Base.Text.{concat, head_of, strip, replace}
use se_1_rune_agent.Exec.{Exception, ok, raised}
use se_1_rune_agent.Feedback.{FeedbackReasonCode, read_reason_code}
use se_1_rune_agent.Ontology.{accepts_edge}
use se_1_rune_agent.Approvals.{
  pending, approved, rejected, stale, approve, reject, hold, ApprovalItem, ApprovalDecision,
}
use se_1_rune_agent.Approvals.Service.{
  Desk, stage_edges, approve_by_system, staged_item, is_stale_decision,
}
use se_1_rune_agent.Approvals.Decision.{decide, settled, keep_item}
use se_1_rune_agent.Approvals.Decision.Safety.{IsSafe, here, next, stage, decided, Reach-IsSafe}
use se_1_rune_agent.Approvals.Decision.Final.{IsKeyed, decide_each, closed-decide_each}
use se_1_rune_agent.Approvals.Decision.Outcome.{PendingOutcome, decide_outcome, decide_stale}
use se_1_rune_agent.Approvals.Decision.Effects.{
  answered, with_feedback, approve-stage_edges, decide-KeepsOff, decide_unknown_reason,
}
use se_1_rune_agent.Approvals.Samples.{
  Cell, contracts, contracts-IsPydantic, empty_desk, inferred_edge, item_with, desk_with,
  decision_on,
}

abbrev staged_desk : Desk contracts
staged_desk = record empty_desk {
  service =
      stage_edges contracts 100 "SYS" "run_1" "step_1" (inferred_edge ∷ []) empty_desk.service;
}

empty_desk-IsSafe : IsSafe contracts empty_desk
unfolding get
empty_desk-IsSafe = record {
  deltas = record { at_key = λ k v e. cc };
  graph = record { at_key = λ k v e. cc };
}

Reach-IsSafe_example :
    IsSafe contracts (decide contracts 300 (decision_on "apv_edge_1" approve) staged_desk).1
Reach-IsSafe_example = Reach-IsSafe contracts contracts-IsPydantic empty_desk-IsSafe (
    next (next here (stage 100 "SYS" "run_1" "step_1" (inferred_edge ∷ []) empty_desk))
      (decided 300 (decision_on "apv_edge_1" approve) staged_desk))

closed_desk-IsKeyed : IsKeyed contracts (desk_with (item_with rejected))
unfolding get
closed_desk-IsKeyed = record { at_key = λ k v e. ground (arith, eq_iff "apv_1" k) }

there_is : (item : ApprovalItem) → get (desk_with item).service.items "apv_1" ≡ some item
unfolding get
there_is item = refl

closed-decide_each_example :
    get
      (decide_each contracts
        ((300, decision_on "apv_1" approve) ∷ (301, decision_on "apv_2" hold) ∷ [])
        (desk_with (item_with rejected))).service.items
      "apv_1"
    ≡ some (item_with rejected)
closed-decide_each_example =
    closed-decide_each contracts
      ((300, decision_on "apv_1" approve) ∷ (301, decision_on "apv_2" hold) ∷ [])
      (desk_with (item_with rejected)) "apv_1" (item_with rejected) closed_desk-IsKeyed
      (there_is (item_with rejected)) refl

decide_outcome_example :
    PendingOutcome contracts
      (decision_on "apv_1" reject)
      (item_with pending)
      (desk_with (item_with pending))
      (decide contracts 300 (decision_on "apv_1" reject) (desk_with (item_with pending)))
decide_outcome_example =
    decide_outcome contracts 300 (decision_on "apv_1" reject) (desk_with (item_with pending))
      (item_with pending) (there_is (item_with pending)) refl

abbrev late_decision : ApprovalDecision Cell
late_decision = record (decision_on "apv_1" approve) { expected_version = some 2 }

two_ne_one : ◌≢◌ {A = ℕ} 2 1
two_ne_one e = omega arith

decide_stale_example : decide contracts 300 late_decision (desk_with (item_with pending)) ≡ (
  ok (settled contracts 300 stale (item_with pending)),
  keep_item contracts
      (settled contracts 300 stale (item_with pending))
      (desk_with (item_with pending)),
)
decide_stale_example =
    decide_stale contracts 300 late_decision (desk_with (item_with pending)) (item_with pending)
      (there_is (item_with pending)) refl (inl (2, refl, two_ne_one))

abbrev staged : ApprovalItem
staged = staged_item contracts 100 "SYS" "run_1" "step_1" inferred_edge

staged_id :
    "apv_edge_1" ≡ (staged_item contracts 100 "SYS" "run_1" "step_1" inferred_edge).approval_id
unfolding staged_item concat head_of
staged_id = refl

current :
    is_stale_decision
      (staged_item contracts 100 "SYS" "run_1" "step_1" inferred_edge)
      (decision_on "apv_edge_1" approve)
    ≡ false
unfolding staged_item is_stale_decision
current = refl

approve-stage_edges_example :
    let out = settled contracts 300 approved staged in
    let (result, after) = decide contracts 300 (decision_on "apv_edge_1" approve) staged_desk in
    (get after.graph.edges "edge_1" ≡ some (approve_by_system contracts inferred_edge))
    × (get after.service.items out.approval_id ≡ some out)
    × (result ≡ answered contracts (decision_on "apv_edge_1" approve) out)
unfolding accepts_edge
approve-stage_edges_example =
    approve-stage_edges contracts contracts-IsPydantic 100 300 "SYS" "run_1" "step_1" inferred_edge
      (decision_on "apv_edge_1" approve) empty_desk staged_id refl current refl refl

pending_current : is_stale_decision (item_with pending) (decision_on "apv_1" reject) ≡ false
unfolding is_stale_decision
pending_current = refl

decide-KeepsOff_example :
    let out = settled contracts 300 rejected (item_with pending) in
    decide contracts 300 (decision_on "apv_1" reject) (desk_with (item_with pending)) ≡ (
      answered contracts (decision_on "apv_1" reject) out,
      with_feedback contracts 300 rejected
          (item_with pending)
          (decision_on "apv_1" reject)
          (keep_item contracts out (desk_with (item_with pending))),
    )
decide-KeepsOff_example =
    decide-KeepsOff contracts 300 (decision_on "apv_1" reject) (desk_with (item_with pending))
      (item_with pending) rejected (there_is (item_with pending)) refl pending_current
      (inl (refl, refl))

abbrev unsure : ApprovalDecision Cell
unsure = record (decision_on "apv_1" reject) { reason_code = some "not sure" }

unsure_unknown : read_reason_code contracts.lower unsure.reason_code ≡ none
unfolding read_reason_code get strip replace
unsure_unknown = refl

unsure_current : is_stale_decision (item_with pending) unsure ≡ false
unfolding is_stale_decision
unsure_current = refl

decide_unknown_reason_example :
    let (result, after) = decide contracts 300 unsure (desk_with (item_with pending)) in
    ((e : Exception) × (result ≡ raised e))
    × (after.service.feedback ≡ (desk_with (item_with pending)).service.feedback)
decide_unknown_reason_example =
    decide_unknown_reason contracts 300 unsure (desk_with (item_with pending)) (item_with pending)
      (there_is (item_with pending)) refl unsure_current unsure_unknown

-- A reason in the words of the user is read as its code.
reads_weak_evidence :
    read_reason_code (λ s. s) (some " weak-evidence ")
    ≡ some (some FeedbackReasonCode.weak_evidence)
unfolding read_reason_code get strip replace
reads_weak_evidence = refl
