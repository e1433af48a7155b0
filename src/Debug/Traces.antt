-- ===== src/Debug/Traces.antt =====
-- src/req_tracker/debug/traces.py: the repository of runs, steps and calls. A payload comes as the
-- hash that `stable_hash` gives it, and `now` stands for the calls of `datetime.now(UTC)`.
use se_1_rune_agent.Base.{ℕ, String, Option, none, some, List, [], ◌==◌, select}
use se_1_rune_agent.Base.Dict.{Dict, get, put, values}
use se_1_rune_agent.Exec.{Exec, key_error, pure, modify, get_state, require, ◌>>=◌, ◌>>◌}
use se_1_rune_agent.Debug.{
  RunType, TriggerSource, RunStatus, StepStatus, ValidationStatus, not_applicable, AgentRun,
  AgentStepTrace, LlmCallTrace,
}

pub record TraceRepository (V : Type 0) : Type 0 where
  pub runs : Dict AgentRun
  pub steps : Dict (AgentStepTrace V)
  pub llm_calls : Dict LlmCallTrace

abbrev or_else : {A : Type 0} → Option A → Option A → Option A
or_else none b = b
or_else (some a) b = some a

module _ {V : Type 0} where
  abbrev pub empty_traces : TraceRepository V
  empty_traces = record { runs = []; steps = []; llm_calls = [] }

  abbrev keep_run : AgentRun → TraceRepository V → TraceRepository V
  keep_run run repo = record repo { runs = put repo.runs run.run_id run }

  abbrev pub keep_step : AgentStepTrace V → String → TraceRepository V → TraceRepository V
  keep_step step step_id repo = record repo { steps = put repo.steps step_id step }

  unfoldable pub create_run :
      (now : ℕ) (run_id : String)
      → RunType
      → (project_key triggered_by : String) → TriggerSource
      → Exec (TraceRepository V) AgentRun
  create_run now run_id run_type project_key triggered_by trigger_source = do
    let run : AgentRun = record {
      run_id = run_id;
      run_type = run_type;
      project_key = project_key;
      triggered_by = triggered_by;
      trigger_source = trigger_source;
      status = RunStatus.queued;
      model_profile_id = none;
      prompt_version_ids = [];
      input_snapshot_ids = [];
      started_at = now;
      completed_at = none;
      failure_code = none;
      failure_message = none;
    }
    modify (keep_run run)
    pure run

  abbrev change_run : String → (AgentRun → AgentRun) → Exec (TraceRepository V) AgentRun
  change_run run_id update = do
    repo ← get_state
    run ← require (key_error run_id) (get repo.runs run_id)
    modify (λ r. record r { runs = put r.runs run_id (update run) })
    pure (update run)

  unfoldable pub mark_run_running : String → Exec (TraceRepository V) AgentRun
  mark_run_running run_id = change_run run_id (λ run. record run { status = RunStatus.running })

  unfoldable pub complete_run :
      (now : ℕ) (run_id : String)
      → RunStatus
      → (failure_code failure_message : Option String) → Exec (TraceRepository V) AgentRun
  complete_run now run_id status failure_code failure_message = change_run run_id (λ run.
      record run {
        status = status;
        completed_at = some now;
        failure_code = failure_code;
        failure_message = failure_message;
      })

  unfoldable pub start_step :
      (now : ℕ) (step_id run_id stage_name input_hash : String)
      (retrieval_context_ref : Option String) (retry_count : ℕ)
      → Exec (TraceRepository V) (AgentStepTrace V)
  start_step now step_id run_id stage_name input_hash retrieval_context_ref retry_count = do
    let step : AgentStepTrace V = record {
      step_id = step_id;
      run_id = run_id;
      stage_name = stage_name;
      status = StepStatus.running;
      input_hash = input_hash;
      output_hash = none;
      output_ref = none;
      retrieval_context_ref = retrieval_context_ref;
      validation_status = not_applicable;
      validation_result = [];
      started_at = now;
      completed_at = none;
      retry_count = retry_count;
      error_class = none;
      error_message = none;
    }
    modify (keep_step step step_id)
    pure step

  abbrev change_step :
      String → (AgentStepTrace V → AgentStepTrace V) → Exec (TraceRepository V) (AgentStepTrace V)
  change_step step_id update = do
    repo ← get_state
    step ← require (key_error step_id) (get repo.steps step_id)
    modify (keep_step (update step) step_id)
    pure (update step)

  unfoldable pub finish_step :
      (now : ℕ) (step_id output_hash : String) (output_ref retrieval_context_ref : Option String)
      → ValidationStatus
      → Dict V
      → Exec (TraceRepository V) (AgentStepTrace V)
  finish_step now step_id output_hash output_ref retrieval_context_ref status result =
      change_step step_id (λ step. record step {
        status = StepStatus.succeeded;
        output_hash = some output_hash;
        output_ref = output_ref;
        retrieval_context_ref = or_else retrieval_context_ref step.retrieval_context_ref;
        validation_status = status;
        validation_result = result;
        completed_at = some now;
      })

  -- With no output the step keeps its hash.
  unfoldable pub fail_step :
      (now : ℕ) (step_id error_class error_message : String)
      (output_hash output_ref : Option String)
      → ValidationStatus
      → Dict V
      → Exec (TraceRepository V) (AgentStepTrace V)
  fail_step now step_id error_class error_message output_hash output_ref status result =
      change_step step_id (λ step. record step {
        status = StepStatus.failed;
        output_hash = or_else output_hash step.output_hash;
        output_ref = output_ref;
        validation_status = status;
        validation_result = result;
        error_class = some error_class;
        error_message = some error_message;
        completed_at = some now;
      })

  unfoldable pub record_llm_call : LlmCallTrace → TraceRepository V → TraceRepository V
  record_llm_call trace repo = record repo {
    llm_calls = put repo.llm_calls trace.llm_call_id trace;
  }

  unfoldable pub list_steps : String → TraceRepository V → List (AgentStepTrace V)
  list_steps run_id repo = select (λ step. step.run_id == run_id) (values repo.steps)
