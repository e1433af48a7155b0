-- ===== src/Evals.antt =====
-- src/req_tracker/evals/datasets.py, metrics.py and runner.py: feedback as evaluation datasets, and
-- the gate before an improvement. Rates are counted in ten-thousandths.
pub mod Gate
mod Witnesses
use Prim.Native.Nat.{◌/◌}
use se_1_rune_agent.Base.{
  ℕ, ◌+◌, ◌-◌, ◌*◌, String, Bool, true, false, Option, none, some, List, [], ◌∷◌, ◌++◌, ◌==◌, ltb,
  eqb, length, map, if◌then◌else◌,
}
use se_1_rune_agent.Base.Dict.{Dict, get, put, values}
use se_1_rune_agent.Base.Text.{concat}
use se_1_rune_agent.Feedback.{FeedbackEvent, event_reason}

abbrev reason_to_dataset : Dict String
reason_to_dataset =
    ("wrong_relation", "edge_linking/rejected_edges.jsonl")
    ∷ ("weak_evidence", "retrieval/evidence_sufficiency.jsonl")
    ∷ ("wrong_node_type", "node_extraction/corrections.jsonl")
    ∷ ("duplicate", "entity_resolution/duplicates.jsonl")
    ∷ ("missing_context", "retrieval/missed_context.jsonl")
    ∷ ("wrong_severity", "findings/severity_corrections.jsonl")
    ∷ ("security_concern", "security/blockers.jsonl")
    ∷ ("other", "manual_triage/unclassified.jsonl")
    ∷ []

pub record EvalDatasetCandidate : Type 0 where
  pub dataset_path : String
  pub reason_code : String
  pub feedback_ids : List String
  pub target_ids : List String

unfoldable pub dataset_path_of : String → String
dataset_path_of reason = elim (get reason_to_dataset reason) [
  | none ↦ "manual_triage/unclassified.jsonl"
  | some path ↦ path
]

abbrev new_candidate : String → String → EvalDatasetCandidate
new_candidate path reason = record {
  dataset_path = path;
  reason_code = reason;
  feedback_ids = [];
  target_ids = [];
}

abbrev set_default : Option EvalDatasetCandidate → EvalDatasetCandidate → EvalDatasetCandidate
set_default none new = new
set_default (some old) new = old

unfoldable pub add_to_candidates :
    FeedbackEvent → Dict EvalDatasetCandidate → Dict EvalDatasetCandidate
unfolding dataset_path_of
add_to_candidates event grouped =
    let reason = event_reason event in
    let path = dataset_path_of reason in
    let candidate = set_default (get grouped path) (new_candidate path reason) in
    put grouped path (record candidate {
      feedback_ids = candidate.feedback_ids ++ event.feedback_id ∷ [];
      target_ids = candidate.target_ids ++ event.target_id ∷ [];
    })

unfoldable pub group_feedback :
    List FeedbackEvent → Dict EvalDatasetCandidate → Dict EvalDatasetCandidate
group_feedback [] grouped = grouped
group_feedback (event ∷ feedback) grouped =
    group_feedback feedback (add_to_candidates event grouped)

unfoldable pub build_eval_candidates : List FeedbackEvent → List EvalDatasetCandidate
unfolding group_feedback
build_eval_candidates feedback = values (group_feedback feedback [])

abbrev counted : Option ℕ → ℕ
counted none = 0
counted (some n) = n

unfoldable pub count_reasons : List FeedbackEvent → Dict ℕ → Dict ℕ
count_reasons [] counts = counts
count_reasons (event ∷ feedback) counts =
    count_reasons feedback
      (put counts (event_reason event) (counted (get counts (event_reason event)) + 1))

unfoldable pub feedback_counts_by_reason : List FeedbackEvent → Dict ℕ
unfolding count_reasons
feedback_counts_by_reason feedback = count_reasons feedback []

pub data GateStatus : Type 0 where
  passed blocked : GateStatus

pub record EvalMetricReport : Type 0 where
  pub eval_run_id : String
  pub dataset_path : String
  pub reason_code : String
  pub total_cases : ℕ
  pub passed_cases : ℕ
  pub failed_cases : ℕ
  pub pass_rate : ℕ
  pub security_failures : ℕ
  pub replay_drift_rate : ℕ

pub record EvalGatePolicy : Type 0 where
  pub min_cases : ℕ
  pub min_pass_rate : ℕ
  pub max_security_failures : ℕ
  pub max_replay_drift_rate : ℕ

abbrev pub default_policy : EvalGatePolicy
default_policy = record {
  min_cases = 2;
  min_pass_rate = 9500;
  max_security_failures = 0;
  max_replay_drift_rate = 200;
}

pub record EvalGateResult : Type 0 where
  pub eval_run_id : String
  pub status : GateStatus
  pub policy : EvalGatePolicy
  pub metrics : List EvalMetricReport
  pub blockers : List String

-- `passed_cases / total_cases if total_cases else 0.0`
abbrev rate : ℕ → ℕ → ℕ
rate passed_cases total_cases = if eqb total_cases 0 then 0 else passed_cases * 10000 / total_cases

unfoldable pub metric_for_candidate : String → EvalDatasetCandidate → EvalMetricReport
metric_for_candidate eval_run_id candidate =
    let total = length candidate.feedback_ids in
    let failures = if candidate.reason_code == "security_concern" then total else 0 in
    record {
      eval_run_id = eval_run_id;
      dataset_path = candidate.dataset_path;
      reason_code = candidate.reason_code;
      total_cases = total;
      passed_cases = total - failures;
      failed_cases = failures;
      pass_rate = rate (total - failures) total;
      security_failures = failures;
      replay_drift_rate = if candidate.reason_code == "wrong_relation" then 100 else 0;
    }

abbrev blocker_if : Bool → EvalMetricReport → String → List String
blocker_if b metric what = if b then concat (metric.dataset_path ∷ what ∷ []) ∷ [] else []

unfoldable pub metric_blockers : EvalGatePolicy → EvalMetricReport → List String
metric_blockers policy metric =
    blocker_if (ltb metric.total_cases policy.min_cases) metric ":not_enough_cases"
    ++ blocker_if (ltb metric.pass_rate policy.min_pass_rate) metric ":pass_rate_below_policy"
    ++ blocker_if (ltb policy.max_security_failures metric.security_failures) metric
        ":security_failures"
    ++ blocker_if (ltb policy.max_replay_drift_rate metric.replay_drift_rate) metric ":replay_drift"

unfoldable pub each_blocker : EvalGatePolicy → List EvalMetricReport → List String
unfolding metric_blockers
each_blocker policy [] = []
each_blocker policy (metric ∷ metrics) =
    metric_blockers policy metric ++ each_blocker policy metrics

unfoldable pub collect_blockers : List EvalMetricReport → EvalGatePolicy → List String
unfolding each_blocker
collect_blockers [] policy = "no_eval_datasets" ∷ []
collect_blockers (metric ∷ metrics) policy = each_blocker policy (metric ∷ metrics)

abbrev gate_status : List String → GateStatus
gate_status [] = passed
gate_status (_ ∷ _) = blocked

unfoldable pub run_local_eval_gate :
    List EvalDatasetCandidate → String → EvalGatePolicy → EvalGateResult
unfolding metric_for_candidate collect_blockers
run_local_eval_gate candidates eval_run_id policy =
    let metrics = map (metric_for_candidate eval_run_id) candidates in
    let blockers = collect_blockers metrics policy in
    record {
      eval_run_id = eval_run_id;
      status = gate_status blockers;
      policy = policy;
      metrics = metrics;
      blockers = blockers;
    }
