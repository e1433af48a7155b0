-- ===== src/Api/Approvals/Witnesses.antt =====
-- A decision that is sent again under its key.
use se_1_rune_agent.Base.{
  String, none, some, [], ◌∷◌, ◌≡◌, ◌≢◌, refl, ne_of_eq_false, arith, eq_iff,
}
use se_1_rune_agent.Base.Dict.{get}
use se_1_rune_agent.Base.Text.{concat, strip}
use se_1_rune_agent.Exec.{ok, raised, http_exception}
use se_1_rune_agent.Approvals.{pending, reject, ApprovalItem}
use se_1_rune_agent.Approvals.Samples.{contracts, item_with, desk_with, decision_on}
use se_1_rune_agent.Approvals.Service.{is_stale_decision}
use se_1_rune_agent.Approvals.Decision.{decide, decide_item, decision_event}
use se_1_rune_agent.Approvals.Decision.Final.{IsKeyed}
use se_1_rune_agent.Feedback.{read_reason_code}
use se_1_rune_agent.Audit.{Fingerprint}
use se_1_rune_agent.Api.Security.{
  Settings, UserContext, require_project, require_role, current_user, role_order,
  parse_project_keys,
}
use se_1_rune_agent.Api.Idempotency.{
  IdempotencyRecord, idempotency_key, idempotency_record_id, prepare_idempotency,
}
use se_1_rune_agent.Api.Runtime.{RuntimeState, persist_approval_state}
use se_1_rune_agent.Api.Approvals.{
  Request, decide_approval, answer, run_decision, file_decision, keep_answer,
}
use se_1_rune_agent.Api.Approvals.Again.{run, decide_approval_again}
use se_1_rune_agent.Api.Approvals.Retry.{command, decide_approval_conflicts}

abbrev settings : Settings
settings = record {
  auth_mode = "local";
  api_key = "";
  trusted_proxy_secret = "";
  trusted_group_role_map = [];
  trusted_default_role = "viewer";
}

abbrev request_with : String → Request
request_with hash = record {
  headers = record {
    api_key = none;
    user = some "ann";
    role = some "operator";
    projects = none;
    trusted_secret = none;
    groups = none;
  };
  keys = record { idempotency_key = some "key_1"; x_idempotency_key = none };
  payload_hash = hash;
}

abbrev ann : UserContext
ann = record { user_id = "ann"; role = "operator"; project_keys = "*" ∷ [] }

abbrev kept : IdempotencyRecord String
kept = record {
  record_id = "approvals.decision:key_1";
  idempotency_key = "key_1";
  command = command;
  project_key = some "SYS";
  request_hash = some "h1";
  response = some "closed";
}

abbrev state : RuntimeState contracts String
state = record {
  desk = desk_with (item_with pending);
  audit = record { events = []; policy = record { retention_days = 30; max_events = 100 } };
  idempotency_results = ("approvals.decision:key_1", kept) ∷ [];
  improvement_decisions = [];
  state_store = none;
}

abbrev dump_item : ApprovalItem → String
dump_item item = item.approval_id

abbrev no_hash : Fingerprint → String
no_hash f = "h"

item_there : get state.desk.service.items "apv_1" ≡ some (item_with pending)
unfolding get
item_there = refl

granted :
    (hash : String)
    → require_project settings (request_with hash).headers (some "SYS") "operator" ≡ ok ann
unfolding require_project require_role current_user role_order parse_project_keys
granted hash = refl

keyed : (hash : String) → idempotency_key (request_with hash).keys ≡ some "key_1"
unfolding idempotency_key strip
keyed hash = refl

kept_there : get state.idempotency_results (idempotency_record_id command "key_1") ≡ some kept
unfolding get idempotency_record_id concat
kept_there = refl

h1_ne_h2 : ◌≢◌ {A = String} "h1" "h2"
h1_ne_h2 = ne_of_eq_false "h1" "h2" refl

decide_approval_conflicts_example :
    decide_approval contracts dump_item no_hash 300 settings
      (request_with "h2")
      "apv_1"
      (decision_on "apv_1" reject)
      state
    ≡ (raised (http_exception 409 "idempotency key reused with different request"), state)
decide_approval_conflicts_example =
    decide_approval_conflicts contracts dump_item no_hash 300 settings (request_with "h2")
      (decision_on "apv_1" reject) state (item_with pending) ann "key_1" kept "h1" item_there
      (granted "h2") (keyed "h2") kept_there refl h1_ne_h2

abbrev fresh_state : RuntimeState contracts String
fresh_state = record state { idempotency_results = [] }

abbrev closed_state : RuntimeState contracts String
closed_state =
    (decide_approval contracts dump_item no_hash 300 settings (request_with "h1") "apv_1"
      (decision_on "apv_1" reject) fresh_state).1

fresh-IsKeyed : IsKeyed contracts fresh_state.desk
unfolding get
fresh-IsKeyed = record { at_key = λ k v e. ground (arith, eq_iff "apv_1" k) }

answered_first :
    run contracts dump_item no_hash settings
      (request_with "h1")
      (decision_on "apv_1" reject)
      "key_1"
      (keyed "h1")
      300
      fresh_state
    ≡ (ok "apv_1", closed_state)
unfolding decide_approval answer run_decision file_decision keep_answer require_project require_role
    current_user role_order parse_project_keys idempotency_key strip prepare_idempotency get decide
    decide_item decision_event read_reason_code persist_approval_state is_stale_decision
answered_first = refl

decide_approval_again_example :
    decide_approval contracts dump_item no_hash 400 settings
      (request_with "h1")
      "apv_1"
      (decision_on "apv_1" reject)
      closed_state
    ≡ (ok "apv_1", closed_state)
decide_approval_again_example =
    decide_approval_again contracts dump_item no_hash settings (request_with "h1")
      (decision_on "apv_1" reject) "key_1" (keyed "h1") 300 400 fresh_state closed_state
      (item_with pending) ann "apv_1" fresh-IsKeyed item_there (granted "h1") answered_first
