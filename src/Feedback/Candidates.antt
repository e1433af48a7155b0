-- ===== src/Feedback/Candidates.antt =====
-- src/req_tracker/feedback/service.py: feedback events as improvement candidates. The digest of a
-- group of events is a parameter.
use Prim.Native.String.{compare}
use text.Mathlib.Text.{is_lt}
use se_1_rune_agent.Base.{
  ℕ, String, Bool, not, Option, none, some, List, [], ◌∷◌, ◌++◌, length, map,
}
use se_1_rune_agent.Base.Dict.{Dict, get, put}
use se_1_rune_agent.Base.Text.{concat, decimal, head_of}
use se_1_rune_agent.Base.Sort.{sort_by}
use se_1_rune_agent.Feedback.{
  FeedbackEvent, ImprovementType, prompt, rule, retrieval_policy, scoring_threshold,
  ontology_normalization, model_profile, few_shot_example, draft, ImprovementCandidate,
  event_reason,
}

abbrev reason_to_improvement : Dict ImprovementType
reason_to_improvement =
    ("wrong_relation", rule)
    ∷ ("weak_evidence", retrieval_policy)
    ∷ ("wrong_node_type", ontology_normalization)
    ∷ ("duplicate", rule)
    ∷ ("missing_context", retrieval_policy)
    ∷ ("wrong_severity", scoring_threshold)
    ∷ ("security_concern", model_profile)
    ∷ ("other", prompt)
    ∷ []

unfoldable pub improvement_type_of : String → ImprovementType
improvement_type_of reason = elim (get reason_to_improvement reason) [ none ↦ prompt | some t ↦ t ]

abbrev pub type_name : ImprovementType → String
type_name prompt = "prompt"
type_name few_shot_example = "few_shot_example"
type_name rule = "rule"
type_name retrieval_policy = "retrieval_policy"
type_name scoring_threshold = "scoring_threshold"
type_name ontology_normalization = "ontology_normalization"
type_name model_profile = "model_profile"

abbrev events_of : Option (List FeedbackEvent) → List FeedbackEvent
events_of none = []
events_of (some events) = events

unfoldable pub group_by_reason :
    List FeedbackEvent → Dict (List FeedbackEvent) → Dict (List FeedbackEvent)
group_by_reason [] grouped = grouped
group_by_reason (event ∷ feedback) grouped =
    let reason = event_reason event in
    group_by_reason feedback (put grouped reason (events_of (get grouped reason) ++ event ∷ []))

-- The keys are distinct, so that the order of the items is that of the keys.
abbrev not_after : String × List FeedbackEvent → String × List FeedbackEvent → Bool
not_after (a, _) (b, _) = not (is_lt (compare b a))

-- `_summary`
unfoldable pub summary : String → ImprovementType → ℕ → String
summary reason candidate_type count = concat (
    "Review "
    ∷ decimal count
    ∷ " feedback events tagged "
    ∷ reason
    ∷ " and prepare a "
    ∷ type_name candidate_type
    ∷ " change for eval."
    ∷ [])

module _ (hash_group : (reason_code candidate_type : String) → List String → String) where
  unfoldable pub candidate_for : String → String × List FeedbackEvent → ImprovementCandidate
  unfolding improvement_type_of summary
  candidate_for before_version_id (reason, events) =
      let candidate_type = improvement_type_of reason in
      let feedback_ids = map (λ event. event.feedback_id) events in
      let digest = head_of 16 (hash_group reason (type_name candidate_type) feedback_ids) in
      record {
        candidate_id = concat ("imp_" ∷ digest ∷ []);
        candidate_type = candidate_type;
        source_feedback_ids = feedback_ids;
        proposed_change_summary = summary reason candidate_type (length events);
        before_version_id = before_version_id;
        after_version_ref =
            concat ("draft://" ∷ type_name candidate_type ∷ "/" ∷ reason ∷ "/" ∷ digest ∷ []);
        eval_run_id = none;
        status = draft;
        reviewed_by = none;
      }

  unfoldable pub build_improvement_candidates :
      List FeedbackEvent → String → List ImprovementCandidate
  unfolding group_by_reason candidate_for
  build_improvement_candidates feedback before_version_id =
      map (candidate_for before_version_id) (sort_by not_after (group_by_reason feedback []))
