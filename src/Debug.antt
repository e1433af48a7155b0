-- ===== src/Debug.antt =====
-- src/req_tracker/debug/models.py: runs, steps and calls of a model, as they are traced.
pub mod Traces
pub mod Diff
use se_1_rune_agent.Base.{ℕ, String, Option, List}
use se_1_rune_agent.Base.Dict.{Dict}

pub data RunType : Type 0 where
  ingestion analysis approval_commit eval replay improvement : RunType

pub data TriggerSource : Type 0 where
  manual schedule api system : TriggerSource

pub data RunStatus : Type 0 where
  queued running succeeded failed cancelled partial : RunStatus

pub data StepStatus : Type 0 where
  running succeeded failed skipped : StepStatus

pub data ValidationStatus : Type 0 where
  not_applicable passed failed repaired : ValidationStatus

pub record AgentRun : Type 0 where
  pub run_id : String
  pub run_type : RunType
  pub project_key : String
  pub triggered_by : String
  pub trigger_source : TriggerSource
  pub status : RunStatus
  pub model_profile_id : Option String
  pub prompt_version_ids : List String
  pub input_snapshot_ids : List String
  pub started_at : ℕ
  pub completed_at : Option ℕ
  pub failure_code : Option String
  pub failure_message : Option String

-- `V` is the type of the values in the dicts.
pub record AgentStepTrace (V : Type 0) : Type 0 where
  pub step_id : String
  pub run_id : String
  pub stage_name : String
  pub status : StepStatus
  pub input_hash : String
  pub output_hash : Option String
  pub output_ref : Option String
  pub retrieval_context_ref : Option String
  pub validation_status : ValidationStatus
  pub validation_result : Dict V
  pub started_at : ℕ
  pub completed_at : Option ℕ
  pub retry_count : ℕ
  pub error_class : Option String
  pub error_message : Option String

-- The cost is counted in millionths of a dollar.
pub record LlmCallTrace : Type 0 where
  pub llm_call_id : String
  pub run_id : String
  pub step_id : String
  pub model_profile_id : String
  pub prompt_version_id : String
  pub request_hash : String
  pub response_hash : Option String
  pub masked_payload_ref : String
  pub raw_response_ref : Option String
  pub parsed_output_ref : Option String
  pub input_tokens : Option ℕ
  pub output_tokens : Option ℕ
  pub cost_usd : Option ℕ
  pub latency_ms : ℕ
  pub validation_status : ValidationStatus
  pub retry_count : ℕ
  pub error_message : Option String
