-- ===== src/Audit.antt =====
-- src/req_tracker/audit/models.py and service.py: the register of audit events.
pub mod Collisions
pub mod Retention
mod Witnesses
use se_1_rune_agent.Base.{
  ℕ, ◌+◌, ◌-◌, ◌*◌, String, Bool, true, false, not, Option, none, some, List, [], ◌∷◌, ◌++◌, ◌==◌,
  ltb, leb, length, take, select, elem, map, if◌then◌else◌,
}
use se_1_rune_agent.Base.Dict.{Dict, put, remove, values, index}
use se_1_rune_agent.Base.Text.{concat, head_of}
use se_1_rune_agent.Base.Sort.{sort_by}

pub data AuditAction : Type 0 where
  run_started run_completed approval_decided feedback_recorded : AuditAction
  finding_status_changed improvement_activated improvement_rolled_back : AuditAction
  model_profile_activated model_profile_rolled_back prompt_version_activated : AuditAction
  prompt_version_rolled_back debug_artifact_read schedule_configured schedule_run_now : AuditAction
  dashboard_preferences_saved dashboard_work_queue_assignment_updated : AuditAction
  audit_archive_pruned : AuditAction

pub data AuditOutcome : Type 0 where
  succeeded failed blocked : AuditOutcome

-- The values that the program puts into the metadata of an event.
pub data Object : Type 0 where
  nothing : Object
  text : String → Object
  number : ℕ → Object

abbrev pub text_or_none : Option String → Object
text_or_none none = nothing
text_or_none (some s) = text s

abbrev pub number_or_none : Option ℕ → Object
number_or_none none = nothing
number_or_none (some n) = number n

pub record AuditEvent : Type 0 where
  pub audit_id : String
  pub action : AuditAction
  pub actor_id : String
  pub actor_role : Option String
  pub project_key : Option String
  pub target_type : String
  pub target_id : String
  pub outcome : AuditOutcome
  pub reason_code : Option String
  pub metadata : Dict Object
  pub created_at : ℕ

pub record AuditRetentionPolicy : Type 0 where
  pub retention_days : ℕ
  pub max_events : ℕ

pub record AuditService : Type 0 where
  pub events : Dict AuditEvent
  pub policy : AuditRetentionPolicy

-- The arguments of `record`.
pub record Entry : Type 0 where
  pub action : AuditAction
  pub actor_id : String
  pub actor_role : Option String
  pub project_key : Option String
  pub target_type : String
  pub target_id : String
  pub outcome : AuditOutcome
  pub reason_code : Option String
  pub metadata : Dict Object

-- What `record` hashes: the entry, without the actor's role, and the sequence number.
pub record Fingerprint : Type 0 where
  pub action : AuditAction
  pub actor_id : String
  pub target_type : String
  pub target_id : String
  pub project_key : Option String
  pub outcome : AuditOutcome
  pub reason_code : Option String
  pub metadata : Dict Object
  pub sequence : ℕ

unfoldable pub fingerprint : Entry → ℕ → Fingerprint
fingerprint e sequence = record {
  action = e.action;
  actor_id = e.actor_id;
  target_type = e.target_type;
  target_id = e.target_id;
  project_key = e.project_key;
  outcome = e.outcome;
  reason_code = e.reason_code;
  metadata = e.metadata;
  sequence = sequence;
}

-- `stable_hash` is a parameter.
module _ (stable_hash : Fingerprint → String) where
  unfoldable pub audit_event : ℕ → Entry → ℕ → AuditEvent
  unfolding fingerprint
  audit_event now e sequence = record {
    audit_id = concat ("aud_" ∷ head_of 16 (stable_hash (fingerprint e sequence)) ∷ []);
    action = e.action;
    actor_id = e.actor_id;
    actor_role = e.actor_role;
    project_key = e.project_key;
    target_type = e.target_type;
    target_id = e.target_id;
    outcome = e.outcome;
    reason_code = e.reason_code;
    metadata = e.metadata;
    created_at = now;
  }

  -- `record`; the sequence number is the number of events now in the register.
  unfoldable pub record_event : ℕ → Entry → AuditService → AuditService
  unfolding audit_event
  record_event now e s =
      let event = audit_event now e (length s.events) in
      record s { events = put s.events event.audit_id event }

abbrev older : AuditEvent → AuditEvent → Bool
older a b = leb a.created_at b.created_at

-- timedelta(days=n), in microseconds.
abbrev pub days : ℕ → ℕ
days n = n * 86400000000

abbrev pub is_expired : ℕ → AuditEvent → Bool
is_expired cutoff e = ltb e.created_at cutoff

abbrev pub ids : List AuditEvent → List String
ids = map (λ e. e.audit_id)

-- `_retention_candidates`: the expired events, and the oldest of the others that are too many.
unfoldable pub expired_events : ℕ → AuditService → List AuditEvent
expired_events now s =
    select (is_expired (now - days s.policy.retention_days)) (sort_by older (values s.events))

unfoldable pub remaining_after_expired : ℕ → AuditService → List AuditEvent
unfolding expired_events
remaining_after_expired now s =
    let gone = ids (expired_events now s) in
    select (λ e. not (elem e.audit_id gone)) (sort_by older (values s.events))

unfoldable pub overflow_events : ℕ → AuditService → List AuditEvent
unfolding remaining_after_expired
overflow_events now s =
    let rest = remaining_after_expired now s in take (length rest - s.policy.max_events) rest

unfoldable pub events_to_archive : ℕ → AuditService → List AuditEvent
unfolding overflow_events
events_to_archive now s =
    sort_by older (values (index (λ e. e.audit_id) (expired_events now s ++ overflow_events now s)))

unfoldable pub pop_all : List String → Dict AuditEvent → Dict AuditEvent
pop_all [] d = d
pop_all (k ∷ ks) d = pop_all ks (remove d k)

-- `archive_and_prune`, once the archive has been written: the archived events and the register.
unfoldable pub archive_and_prune : ℕ → AuditService → List AuditEvent × AuditService
unfolding events_to_archive pop_all
archive_and_prune now s =
    let archived = events_to_archive now s in
    (archived, record s { events = pop_all (ids archived) s.events })
