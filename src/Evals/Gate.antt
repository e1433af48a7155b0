-- ===== src/Evals/Gate.antt =====
-- What a passed gate shows of the feedback.
use se_1_rune_agent.Base.{
  ℕ, ◌≤◌, String, Bool, true, false, List, [], ◌∷◌, ◌++◌, ◌==◌, ◌≡◌, ◌≢◌, refl, arith, length, ltb,
  map, All, ◌⊎◌, inl, inr, Bool-cases, ne_of_eq_false, if◌then◌else◌,
}
use se_1_rune_agent.Evals.{
  EvalDatasetCandidate, EvalMetricReport, EvalGatePolicy, passed, metric_for_candidate,
  metric_blockers, each_blocker, collect_blockers, run_local_eval_gate, gate_status, blocker_if,
}

-- A dataset is large enough, and security concerns are within what the policy lets pass.
abbrev pub Admissible : EvalGatePolicy → EvalDatasetCandidate → Type 0
Admissible policy candidate =
    (policy.min_cases ≤ length candidate.feedback_ids)
    × ((candidate.reason_code ≢ "security_concern")
        ⊎ (length candidate.feedback_ids ≤ policy.max_security_failures))

append-nil : {A : Type 0} (xs ys : List A) → xs ++ ys ≡ [] → (xs ≡ []) × (ys ≡ [])
append-nil [] ys h = (refl, h)
append-nil (x ∷ xs) ys h = cc

blocker_parts : (a b c d : List String) → a ++ b ++ c ++ d ≡ [] → (a ≡ []) × (c ≡ [])
blocker_parts a b c d h =
    let (abc, d_nil) = append-nil (a ++ b ++ c) d h in
    let (ab, c_nil) = append-nil (a ++ b) c abc in ((append-nil a b ab).0, c_nil)

blocker_if-nil :
    (b : Bool) (metric : EvalMetricReport) (what : String)
    → blocker_if b metric what ≡ []
    → b ≡ false
blocker_if-nil false metric what h = refl
blocker_if-nil true metric what h = cc

within-limit :
    (reason : String) (n limit : ℕ)
    → ltb limit (if reason == "security_concern" then n else 0) ≡ false
    → (reason ≢ "security_concern") ⊎ (n ≤ limit)
within-limit reason n limit h = elim (Bool-cases (reason == "security_concern")) [
  | inl same ↦ inr (ground arith)
  | inr other ↦ inl (ne_of_eq_false reason "security_concern" other)
]

few-cases : (n least : ℕ) → ltb n least ≡ false → least ≤ n
few-cases n least h = ground arith

unblocked-Admissible :
    (policy : EvalGatePolicy) (eval_run_id : String) (candidate : EvalDatasetCandidate)
    → metric_blockers policy (metric_for_candidate eval_run_id candidate) ≡ []
    → Admissible policy candidate
unfolding metric_blockers metric_for_candidate
unblocked-Admissible policy eval_run_id candidate h =
    let metric = metric_for_candidate eval_run_id candidate in
    let (cases, security) =
      blocker_parts
        (blocker_if (ltb metric.total_cases policy.min_cases) metric ":not_enough_cases")
        (blocker_if (ltb metric.pass_rate policy.min_pass_rate) metric ":pass_rate_below_policy")
        (blocker_if (ltb policy.max_security_failures metric.security_failures) metric
          ":security_failures")
        (blocker_if (ltb policy.max_replay_drift_rate metric.replay_drift_rate) metric
          ":replay_drift")
        h in
    (
      few-cases _ _ (blocker_if-nil _ metric ":not_enough_cases" cases),
      within-limit candidate.reason_code _ _
          (blocker_if-nil _ metric ":security_failures" security),
    )

each_unblocked :
    (policy : EvalGatePolicy) (eval_run_id : String) (candidates : List EvalDatasetCandidate)
    → each_blocker policy (map (metric_for_candidate eval_run_id) candidates) ≡ []
    → All (Admissible policy) candidates
unfolding each_blocker
each_unblocked policy eval_run_id [] h = tt
each_unblocked policy eval_run_id (candidate ∷ candidates) h =
    let (first, rest) =
      append-nil (metric_blockers policy (metric_for_candidate eval_run_id candidate)) _ h in
    (
      unblocked-Admissible policy eval_run_id candidate first,
      each_unblocked policy eval_run_id candidates rest,
    )

gate_status-passed : (blockers : List String) → gate_status blockers ≡ passed → blockers ≡ []
gate_status-passed [] h = refl
gate_status-passed (b ∷ bs) h = cc

-- A gate that passes was given at least one dataset, each of at least the number of cases that the
-- policy asks for, and none on security concerns of more cases than it lets fail: with the default
-- policy, none at all.
pub passed-run_local_eval_gate :
    (candidates : List EvalDatasetCandidate) (eval_run_id : String) (policy : EvalGatePolicy)
    → (run_local_eval_gate candidates eval_run_id policy).status ≡ passed
    → (candidates ≢ []) × All (Admissible policy) candidates
unfolding run_local_eval_gate collect_blockers
passed-run_local_eval_gate [] eval_run_id policy h = cc
passed-run_local_eval_gate (candidate ∷ candidates) eval_run_id policy h =
    ((λ e. cc), each_unblocked policy eval_run_id (candidate ∷ candidates) (gate_status-passed _ h))
