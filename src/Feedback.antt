-- ===== src/Feedback.antt =====
-- src/req_tracker/feedback/models.py: feedback events and improvement candidates.
pub mod Candidates
use se_1_rune_agent.Base.{ℕ, String, Option, none, some, List, [], ◌∷◌}
use se_1_rune_agent.Base.Dict.{Dict, get}
use se_1_rune_agent.Base.Text.{strip, replace, underscore}

pub data FeedbackTargetType : Type 0 where
  node edge finding answer run_step : FeedbackTargetType

pub data FeedbackAction : Type 0 where
  approved rejected modified commented marked_low_quality : FeedbackAction

pub data FeedbackReasonCode : Type 0 where
  wrong_relation weak_evidence wrong_node_type duplicate : FeedbackReasonCode
  missing_context wrong_severity security_concern other : FeedbackReasonCode

pub data ImprovementType : Type 0 where
  prompt few_shot_example rule retrieval_policy : ImprovementType
  scoring_threshold ontology_normalization model_profile : ImprovementType

pub data ImprovementStatus : Type 0 where
  draft eval_running review_ready approved rejected canary active rolled_back : ImprovementStatus

pub record FeedbackEvent : Type 0 where
  pub feedback_id : String
  pub target_type : FeedbackTargetType
  pub target_id : String
  pub action : FeedbackAction
  pub user_id : String
  pub user_role : String
  pub reason_code : Option FeedbackReasonCode
  pub correction_text : Option String
  pub created_at : ℕ
  pub model_profile_id : Option String
  pub prompt_version_id : Option String

pub record ImprovementCandidate : Type 0 where
  pub candidate_id : String
  pub candidate_type : ImprovementType
  pub source_feedback_ids : List String
  pub proposed_change_summary : String
  pub before_version_id : String
  pub after_version_ref : String
  pub eval_run_id : Option String
  pub status : ImprovementStatus
  pub reviewed_by : Option String

abbrev pub reason_name : FeedbackReasonCode → String
reason_name wrong_relation = "wrong_relation"
reason_name weak_evidence = "weak_evidence"
reason_name wrong_node_type = "wrong_node_type"
reason_name duplicate = "duplicate"
reason_name missing_context = "missing_context"
reason_name wrong_severity = "wrong_severity"
reason_name security_concern = "security_concern"
reason_name other = "other"

-- `_REASON_ALIASES`, where each code stands for itself.
abbrev reason_aliases : Dict FeedbackReasonCode
reason_aliases =
    ("wrong_relation", wrong_relation)
    ∷ ("weak_evidence", weak_evidence)
    ∷ ("wrong_node_type", wrong_node_type)
    ∷ ("duplicate", duplicate)
    ∷ ("missing_context", missing_context)
    ∷ ("wrong_severity", wrong_severity)
    ∷ ("security_concern", security_concern)
    ∷ ("other", other)
    ∷ []

-- `_normalize_taxonomy_value`; `lower` is `str.lower`.
unfoldable pub normalize_taxonomy_value : (lower : String → String) → String → String
normalize_taxonomy_value lower value =
    replace b' ' underscore (replace b'-' underscore (lower (strip value)))

-- A text that `normalize_reason_code` has no code for stays as it is, and is then held against
-- the Literal.
abbrev known_reason : Option FeedbackReasonCode → String → Option FeedbackReasonCode
known_reason (some r) value = some r
known_reason none value = get reason_aliases value

-- `FeedbackEvent.reason_code` of what the constructor is given; `none` is a ValidationError.
unfoldable pub read_reason_code :
    (lower : String → String) → Option String → Option (Option FeedbackReasonCode)
unfolding normalize_taxonomy_value
read_reason_code lower none = some none
read_reason_code lower (some value) =
    elim (known_reason (get reason_aliases (normalize_taxonomy_value lower value)) value) [
      | none ↦ none
      | some r ↦ some (some r)
    ]

abbrev pub name_or_none : Option FeedbackReasonCode → Option String
name_or_none none = none
name_or_none (some r) = some (reason_name r)

-- `event.reason_code or "other"`
abbrev pub event_reason : FeedbackEvent → String
event_reason e = elim e.reason_code [ none ↦ "other" | some r ↦ reason_name r ]
