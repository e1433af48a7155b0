-- ===== src/Api/Improvements/Guard.antt =====
-- What a request to promote an improvement may change.
use se_1_rune_agent.Base.{
  ℕ, String, Bool, true, false, ◌&&◌, Option, none, some, List, ◌≡◌, ◌⊎◌, inl, inr, refl, sym, ◌∙◌,
  arith, Bool-cases, Option-cases, ltb,
}
use se_1_rune_agent.Base.Dict.{put}
use se_1_rune_agent.Exec.{ok, raised, Exception, http_exception, Leaves, continue_ind, require_ind}
use se_1_rune_agent.Feedback.{
  ImprovementStatus, draft, eval_running, review_ready, approved, canary, active, rolled_back,
  rejected, ImprovementCandidate,
}
use se_1_rune_agent.Evals.{
  GateStatus, blocked, passed, default_policy, build_eval_candidates, run_local_eval_gate,
}
use se_1_rune_agent.Approvals.Contracts.{Contracts}
use se_1_rune_agent.Audit.{Entry, Fingerprint}
use se_1_rune_agent.Api.Security.{UserContext, Settings, require_role}
use se_1_rune_agent.Api.Idempotency.{IdempotencyContext, prepare_idempotency}
use se_1_rune_agent.Api.Runtime.{
  RuntimeState, persist_approval_state, record_idempotency_response, record_idempotency_result,
  record_improvement_decision, audit_record,
}
use se_1_rune_agent.Api.Runtime.Frame.{persist_approval_state-SameCaches}
use se_1_rune_agent.Api.Approvals.{Request}
use se_1_rune_agent.Api.Improvements.{
  Promotion, DecisionDump, require_forward, activation_target_status, stage_order, is_gate_passed,
  is_closed,
}
use se_1_rune_agent.Api.Improvements.Commands.{
  current_candidate, record_decision, activate_with, activate_improvement,
}

-- From which stages a promotion may start: none that is closed, and none that is past what the
-- promotion can show. Without a review that is up to the review, without a passed canary all but
-- the last one.
abbrev pub may_start : ImprovementStatus → Promotion → Bool
may_start draft promotion = true
may_start eval_running promotion = true
may_start review_ready promotion = true
may_start approved promotion = promotion.reviewer_approved
may_start canary promotion = promotion.reviewer_approved
may_start active promotion = promotion.reviewer_approved && promotion.canary_passed
may_start rolled_back promotion = false
may_start rejected promotion = false

forward-may_start :
    (current : ImprovementStatus) (promotion : Promotion)
    → is_closed current ≡ false
    → ltb (stage_order (activation_target_status promotion)) (stage_order current) ≡ false
    → may_start current promotion ≡ true
unfolding activation_target_status stage_order
forward-may_start draft promotion o f = refl
forward-may_start eval_running promotion o f = refl
forward-may_start review_ready promotion o f = refl
forward-may_start approved promotion o f = ground arith
forward-may_start canary promotion o f = ground arith
forward-may_start active promotion o f = ground arith
forward-may_start rolled_back promotion o f = sym o
forward-may_start rejected promotion o f = sym o

require_forward-may_start :
    {S : Type 0} (current : ImprovementStatus) (promotion : Promotion) (s : S)
    → ((require_forward current (activation_target_status promotion) s ≡ (ok tt, s))
        × (may_start current promotion ≡ true))
      ⊎ ((e : Exception) × (require_forward current (activation_target_status promotion) s
            ≡ (raised e, s)))
unfolding require_forward
require_forward-may_start current promotion s = elim (Bool-cases (is_closed current)) [
  | inl closed ↦ inr (http_exception 409 "improvement candidate is closed", rw closed refl)
  | inr opened ↦
      elim (Bool-cases
        (ltb (stage_order (activation_target_status promotion)) (stage_order current))) [
          | inl backwards ↦ inr (
            http_exception 409 "improvement promotion cannot move backwards",
            rw opened (rw backwards refl),
          )
          | inr forward ↦
              inl (rw opened (rw forward refl), forward-may_start current promotion opened forward)
        ]
]

record_idempotency_response-decisions :
    {c : Contracts} {R : Type 0} (context : IdempotencyContext R) (command : String)
    (project_key : Option String) (response : R) (s : RuntimeState c R)
    → (record_idempotency_response context command project_key response s).improvement_decisions
      ≡ s.improvement_decisions
unfolding record_idempotency_response record_idempotency_result
record_idempotency_response-decisions context command project_key response s = ground arith

module _ (c : Contracts) {R : Type 0} (dump : DecisionDump R) (stable_hash : Fingerprint → String)
    (hash_group : (reason_code candidate_type : String) → List String → String) where
  record_decision-decisions :
      (now : ℕ) (candidate_id command : String) (context : IdempotencyContext R) (entry : Entry)
      (result : R) (s : RuntimeState c R)
      → (record_decision c dump stable_hash hash_group now candidate_id command context entry result
          s).1.improvement_decisions
        ≡ put s.improvement_decisions candidate_id result
  unfolding record_decision record_improvement_decision
  record_decision-decisions now candidate_id command context entry result s =
      let audited =
        audit_record stable_hash now entry (record_improvement_decision candidate_id result s) in
      let (r, after) = persist_approval_state audited in
      let same = (persist_approval_state-SameCaches audited).improvement_decisions in
      continue_ind
        (Leaves (λ t. t.improvement_decisions ≡ put s.improvement_decisions candidate_id result)) r
        _ after
        (λ _ _. record_idempotency_response-decisions context command none result after ∙ same)
        (λ _ _. same)

  -- A change that the guards allow: a user who may administer promotes a candidate from a stage
  -- where this promotion may start, with feedback that passes the gate, and the only decision that
  -- is recorded is the candidate's.
  abbrev pub Allowed :
      (eval_run_id : String)
      → Settings
      → Request
      → (candidate_id : String) → Promotion
      → RuntimeState c R
      → RuntimeState c R
      → Type 0
  Allowed eval_run_id settings request candidate_id promotion before after =
      (user : UserContext) × (candidate : ImprovementCandidate) × (decision : R) × (require_role
          settings request.headers "admin"
        ≡ ok user)
      × (current_candidate c dump stable_hash hash_group candidate_id before ≡ some candidate)
      × (may_start candidate.status promotion ≡ true)
      × ((run_local_eval_gate (build_eval_candidates before.desk.service.feedback) eval_run_id
            default_policy).status
          ≡ passed)
      × (after.improvement_decisions
          ≡ put before.improvement_decisions candidate.candidate_id decision)

  abbrev pub Guarded :
      (eval_run_id : String)
      → Settings
      → Request
      → (candidate_id : String) → Promotion
      → RuntimeState c R
      → RuntimeState c R
      → Type 0
  Guarded eval_run_id settings request candidate_id promotion before after =
      (after.improvement_decisions ≡ before.improvement_decisions)
      ⊎ Allowed eval_run_id settings request candidate_id promotion before after

  is_gate_passed-eq : (status : GateStatus) → is_gate_passed status ≡ true → status ≡ passed
  is_gate_passed-eq passed h = refl
  is_gate_passed-eq blocked h = cc

  module _ (now : ℕ) (eval_run_id : String) (settings : Settings) (request : Request)
      (candidate_id : String) (promotion : Promotion) where
    activate_with-Guarded :
        (user : UserContext) (candidate : ImprovementCandidate) (context : IdempotencyContext R)
        (s : RuntimeState c R)
        → require_role settings request.headers "admin" ≡ ok user
        → current_candidate c dump stable_hash hash_group candidate_id s ≡ some candidate
        → Leaves (Guarded eval_run_id settings request candidate_id promotion s) (
            activate_with c dump stable_hash hash_group now eval_run_id user promotion candidate
              context s)
    unfolding activate_with
    activate_with-Guarded user candidate context s may there =
        let gate =
          run_local_eval_gate (build_eval_candidates s.desk.service.feedback) eval_run_id
            default_policy in
        elim (require_forward-may_start candidate.status promotion s) [
          | inr (e, refused) ↦ rw refused (inl refl)
          | inl (forward, start) ↦ rw forward (elim (Bool-cases (is_gate_passed gate.status)) [
            | inr shut ↦ rw shut (inl refl)
            | inl open_gate ↦ rw open_gate (
                inr (
                  user,
                  candidate,
                  _,
                  may,
                  there,
                  start,
                  is_gate_passed-eq gate.status open_gate,
                  record_decision-decisions now candidate.candidate_id "improvements.activate"
                      context _ _ s,
                ))
          ])
        ]

    -- Whoever asks, with or without a key, and however it ends: a request to activate changes the
    -- recorded decisions only if an administrator promotes an improvement that exists, from a stage
    -- where the promotion may start, and the feedback passes the gate; and then it records one
    -- decision, that of the candidate.
    pub activate_improvement-Guarded :
        (s : RuntimeState c R)
        → Leaves (Guarded eval_run_id settings request candidate_id promotion s) (
            activate_improvement c dump stable_hash hash_group now eval_run_id settings request
              candidate_id promotion s)
    unfolding activate_improvement
    activate_improvement-Guarded s =
        let Q = Leaves {A = R} (Guarded eval_run_id settings request candidate_id promotion s) in
        continue_ind Q (require_role settings request.headers "admin") _ s
          (λ user may.
            require_ind Q (http_exception 404 "improvement candidate not found")
              (current_candidate c dump stable_hash hash_group candidate_id s) _ s
              (λ candidate there.
                continue_ind Q
                  (prepare_idempotency request.keys s.idempotency_results "improvements.activate"
                    request.payload_hash)
                  _ s
                  (λ context _. elim (Option-cases context.cached_response) [
                    | inl first ↦
                        rw first (activate_with-Guarded user candidate context s may there)
                    | inr (response, kept) ↦ rw kept (inl refl)
                  ])
                  (λ _ _. inl refl))
              (λ _. inl refl))
          (λ _ _. inl refl)
