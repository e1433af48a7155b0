-- ===== src/Api/Improvements/Witnesses.antt =====
-- Improvements from two feedback events.
use se_1_rune_agent.Base.{String, true, none, some, List, [], ◌∷◌}
use se_1_rune_agent.Base.Dict.{Dict}
use se_1_rune_agent.Exec.{Leaves}
use se_1_rune_agent.Feedback.{
  FeedbackTargetType, FeedbackAction, FeedbackEvent, ImprovementStatus, rolled_back,
  security_concern, ImprovementCandidate,
}
use se_1_rune_agent.Feedback.Candidates.{candidate_for}
use se_1_rune_agent.Approvals.Samples.{contracts, empty_desk}
use se_1_rune_agent.Audit.{Fingerprint}
use se_1_rune_agent.Api.Security.{Settings, UserContext}
use se_1_rune_agent.Api.Idempotency.{idempotency_key}
use se_1_rune_agent.Api.Runtime.{RuntimeState}
use se_1_rune_agent.Api.Approvals.{Request}
use se_1_rune_agent.Api.Improvements.{Promotion, DecisionDump}
use se_1_rune_agent.Api.Improvements.Commands.{activate_improvement}
use se_1_rune_agent.Api.Improvements.Guard.{Guarded, activate_improvement-Guarded}

abbrev full : Promotion
full = record { reviewer_approved = true; canary_passed = true }

abbrev event : FeedbackEvent
event = record {
  feedback_id = "fb_1";
  target_type = FeedbackTargetType.edge;
  target_id = "edge_1";
  action = FeedbackAction.rejected;
  user_id = "reviewer";
  user_role = "System Architect";
  reason_code = some security_concern;
  correction_text = none;
  created_at = 1;
  model_profile_id = none;
  prompt_version_id = none;
}

abbrev hash_group : (reason_code candidate_type : String) → List String → String
hash_group reason candidate_type ids = reason

abbrev no_hash : Fingerprint → String
no_hash f = "h"

-- A decision is stored as its candidate.
abbrev dump : DecisionDump ImprovementCandidate
dump = record {
  activation = λ candidate gate promotion previous. candidate;
  rollback = λ candidate previous rollback actor. candidate;
  status = λ r. r.status;
  status_text = λ r. "status";
  eval_run_id = λ r. r.eval_run_id;
  reviewed_by = λ r. r.reviewed_by;
}

abbrev candidate : ImprovementStatus → ImprovementCandidate
candidate status =
    record (candidate_for hash_group "local_active" ("security_concern", event ∷ [])) {
      status = status;
    }

abbrev state : Dict ImprovementCandidate → RuntimeState contracts ImprovementCandidate
state decisions = record {
  desk = record empty_desk { service = record (empty_desk.service) { feedback = event ∷ [] } };
  audit = record { events = []; policy = record { retention_days = 30; max_events = 100 } };
  idempotency_results = [];
  improvement_decisions = decisions;
  state_store = none;
}

abbrev settings : Settings
settings = record {
  auth_mode = "local";
  api_key = "";
  trusted_proxy_secret = "";
  trusted_group_role_map = [];
  trusted_default_role = "viewer";
}

abbrev request : Request
request = record {
  headers = record {
    api_key = none;
    user = some "ann";
    role = some "admin";
    projects = none;
    trusted_secret = none;
    groups = none;
  };
  keys = record { idempotency_key = none; x_idempotency_key = none };
  payload_hash = "h";
}

abbrev ann : UserContext
ann = record { user_id = "ann"; role = "admin"; project_keys = "*" ∷ [] }

abbrev rolled_back_before : Dict ImprovementCandidate
rolled_back_before = ("imp_security_concern", candidate rolled_back) ∷ []

activate_improvement-Guarded_example :
    Leaves
      (Guarded contracts dump no_hash hash_group "eval_1" settings request "imp_security_concern"
        full
        (state []))
      (activate_improvement contracts dump no_hash hash_group 9 "eval_1" settings request
        "imp_security_concern" full
        (state []))
activate_improvement-Guarded_example =
    activate_improvement-Guarded contracts dump no_hash hash_group 9 "eval_1" settings request
      "imp_security_concern" full (state [])
