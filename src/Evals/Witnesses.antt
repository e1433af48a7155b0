-- ===== src/Evals/Witnesses.antt =====
-- A gate on one dataset of two events.
use se_1_rune_agent.Base.{List, [], ◌∷◌, ◌≡◌, ◌≢◌, refl, All}
use se_1_rune_agent.Evals.{
  EvalDatasetCandidate, passed, default_policy, run_local_eval_gate, metric_for_candidate,
  collect_blockers, each_blocker, metric_blockers,
}
use se_1_rune_agent.Evals.Gate.{Admissible, passed-run_local_eval_gate}

abbrev dataset : EvalDatasetCandidate
dataset = record {
  dataset_path = "retrieval/missed_context.jsonl";
  reason_code = "missing_context";
  feedback_ids = "fb_1" ∷ "fb_2" ∷ [];
  target_ids = "edge_1" ∷ "edge_2" ∷ [];
}

dataset_passes : (run_local_eval_gate (dataset ∷ []) "eval_1" default_policy).status ≡ passed
unfolding run_local_eval_gate metric_for_candidate collect_blockers each_blocker metric_blockers
dataset_passes = refl

passed-run_local_eval_gate_example :
    (◌≢◌ {A = List EvalDatasetCandidate} (dataset ∷ []) [])
    × All (Admissible default_policy) (dataset ∷ [])
passed-run_local_eval_gate_example =
    passed-run_local_eval_gate (dataset ∷ []) "eval_1" default_policy dataset_passes
