-- ===== src/Gateway/Client/Calls.antt =====
-- `ModelGatewayClient.complete` of src/req_tracker/model_gateway/client.py, with
-- structured_output.py and the writing half of src/req_tracker/debug/artifacts.py.
pub mod Answers
pub mod Guard
pub mod Refusal
pub mod Bound
mod Witnesses
use se_1_rune_agent.Base.{
  ℕ, String, Bool, true, false, Option, none, some, List, [], ◌∷◌, if◌then◌else◌,
}
use se_1_rune_agent.Base.Dict.{Dict, put}
use se_1_rune_agent.Base.Text.{concat, decimal, head_of}
use se_1_rune_agent.Exec.{Exec, Result, provider_error, runtime_error, pure, raise, continue}
use se_1_rune_agent.Debug.{LlmCallTrace}
use se_1_rune_agent.Debug.Traces.{record_llm_call}
use se_1_rune_agent.Gateway.{
  ModelRequest, ModelResponse, StructuredValidationResult, OutputStatus, passed, failed, repaired,
  assert_allowed,
}
use se_1_rune_agent.Gateway.Client.{
  Reply, replied, failure, Parsed, read, unread, ResponseModel, Digests, ArtifactStore, World,
  ModelGatewayClient, Attempt, Answer, Last, trace_status, attempts,
}

abbrev pub option_map : {A B : Type 0} → (A → B) → Option A → Option B
option_map f none = none
option_map f (some a) = some (f a)

abbrev option_bind : {A B : Type 0} → Option A → (A → Option B) → Option B
option_bind none f = none
option_bind (some a) f = f a

module _ {V : Type 0} where
  abbrev pub result_of : OutputStatus → Option String → StructuredValidationResult V
  result_of status message = record {
    status = status;
    error_message = message;
    repaired_output = none;
  }

  abbrev pub judged : {T : Type 0} → Parsed T → Option T × StructuredValidationResult V
  judged (read t) = (some t, result_of passed none)
  judged (unread message) = (none, result_of failed (some message))

  -- `validate_structured_output`
  unfoldable pub validate_structured_output :
      {T : Type 0} → Dict V → ResponseModel V T → Option T × StructuredValidationResult V
  validate_structured_output output model = judged (model.validate output)

-- Where a JSON file of a run is written.
abbrev pub artifact_path : String → String → String → String
artifact_path root run_id name = concat (root ∷ "/runs/" ∷ run_id ∷ "/" ∷ name ∷ ".json" ∷ [])

abbrev pub artifact_name : String → String → ℕ → String
artifact_name step_id suffix retry_count = concat (step_id ∷ suffix ∷ decimal retry_count ∷ [])

module _ {V : Type 0} (digests : Digests V) (run_id step_id : String) where
  -- `_build_trace`
  unfoldable pub build_trace :
      ModelRequest V
      → (masked_payload_ref : String) → Option (ModelResponse V)
      → StructuredValidationResult V
      → (error_message : Option String) → (retry_count : ℕ) → LlmCallTrace
  build_trace request masked_payload_ref response validation error_message retry_count = record {
    llm_call_id =
        concat ("llm_" ∷ head_of 16 (digests.hash_call run_id step_id request retry_count) ∷ []);
    run_id = run_id;
    step_id = step_id;
    model_profile_id = request.model_profile_id;
    prompt_version_id = request.prompt_version_id;
    request_hash = digests.hash_request request;
    response_hash = option_map (λ r. digests.hash_payload r.output) response;
    masked_payload_ref = masked_payload_ref;
    raw_response_ref = option_bind response (λ r. r.raw_response_ref);
    parsed_output_ref = option_bind response (λ r. r.parsed_output_ref);
    input_tokens = option_bind response (λ r. r.input_tokens);
    output_tokens = option_bind response (λ r. r.output_tokens);
    cost_usd = option_bind response (λ r. r.cost_usd);
    latency_ms = elim response [ none ↦ 0 | some r ↦ r.latency_ms ];
    validation_status = trace_status validation.status;
    retry_count = retry_count;
    error_message = error_message;
  }

module _ {V T : Type 0} where
  abbrev pub answer_of :
      ModelResponse V → String → Option T × StructuredValidationResult V × String → Answer V T
  answer_of response raw_ref (parsed, validation, parsed_ref) = record {
    response = record response {
      raw_response_ref = some raw_ref;
      parsed_output_ref = some parsed_ref;
    };
    parsed = parsed;
    validation = validation;
  }

  abbrev pub failed_last : Last V T → String → Last V T
  failed_last last message = record last { exception = some message }

  abbrev pub answered_last : Last V T → Answer V T → Last V T
  answered_last last answer = record last { answer = some answer }

module _ {V T : Type 0} where
  -- What is written of an output that was read, or could not be.
  abbrev parsed_payload :
      Digests V → ResponseModel V T → Option T → StructuredValidationResult V → Dict V
  parsed_payload digests m none validation =
      ("error", digests.error_text validation.error_message) ∷ []
  parsed_payload digests m (some t) validation = m.dump t

  -- What follows the loop.
  abbrev pub give_up : {S : Type 0} → Last V T → Exec S (Answer V T)
  give_up last = elim last.answer [
    | some answer ↦ pure answer
    | none ↦ elim last.exception [
      | some message ↦ raise (provider_error message)
      | none ↦ raise (runtime_error "model gateway attempts exhausted")
    ]
  ]

abbrev pub is_passed : OutputStatus → Bool
is_passed passed = true
is_passed _ = false

module _ {W V : Type 0} where
  -- `_record_trace`
  abbrev pub record_trace : LlmCallTrace → World W V → World W V
  record_trace trace w = record w { trace_repo = option_map (record_llm_call trace) w.trace_repo }

module _ {W V : Type 0} (digests : Digests V) (run_id step_id : String) where
  abbrev pub put_file : ArtifactStore V → String → Dict V → World W V → World W V
  put_file store name payload w = record w {
    artifact_store =
        some
          (record store { files = put store.files (artifact_path store.root run_id name) payload });
  }

  -- `_write_artifact`
  unfoldable pub write_artifact : String → Dict V → World W V → String × World W V
  write_artifact name payload w = elim w.artifact_store [
    | none ↦ (
      concat (
          "memory://" ∷ run_id ∷ "/" ∷ name ∷ "/" ∷ head_of 12 (digests.hash_payload payload) ∷ []),
      w,
    )
    | some store ↦ (artifact_path store.root run_id name, put_file store name payload w)
  ]

  -- A call that raised is traced, and the loop goes on.
  abbrev pub trace_failure : Attempt W V → String → String → World W V → World W V
  trace_failure a masked_payload_ref message = record_trace (
      build_trace digests run_id step_id a.request masked_payload_ref none
        (result_of failed (some message)) (some message) a.retry_count)

  -- The masked payload is written, and the provider called.
  unfoldable pub send : Attempt W V → World W V → (String × Reply V) × World W V
  unfolding write_artifact
  send a w =
      let (masked_ref, w1) =
        write_artifact (artifact_name step_id "_masked_payload_" a.retry_count) a.request.payload
          w in
      let (reply, outside) = a.provider a.request a.profile a.prompt w1.outside in
      ((masked_ref, reply), record w1 { outside = outside })

  -- The output as the model reads it, and where it is written.
  unfoldable pub read_output :
      {T : Type 0}
      → Option (ResponseModel V T)
      → Attempt W V
      → ModelResponse V
      → String
      → World W V
      → (Option T × StructuredValidationResult V × String) × World W V
  unfolding validate_structured_output write_artifact
  read_output none a response raw_ref w = ((none, result_of passed none, raw_ref), w)
  read_output (some m) a response raw_ref w =
      let (parsed, validation) = validate_structured_output response.output m in
      let (parsed_ref, w1) =
        write_artifact (artifact_name step_id "_parsed_output_" a.retry_count)
          (parsed_payload digests m parsed validation) w in
      ((parsed, validation, parsed_ref), w1)

  abbrev trace_answer : {T : Type 0} → Attempt W V → String → Answer V T → World W V → World W V
  trace_answer a masked_payload_ref answer = record_trace (
      build_trace digests run_id step_id a.request masked_payload_ref (some answer.response)
        answer.validation answer.validation.error_message a.retry_count)

  -- What is made of a response: it is written, read and traced.
  unfoldable pub keep_response :
      {T : Type 0}
      → Option (ResponseModel V T)
      → Attempt W V
      → String
      → ModelResponse V
      → World W V
      → Answer V T × World W V
  unfolding write_artifact read_output
  keep_response model a masked_ref response w =
      let (raw_ref, w1) =
        write_artifact (artifact_name step_id "_raw_response_" a.retry_count) response.output w in
      let (output, w2) = read_output model a response raw_ref w1 in
      let answer = answer_of response raw_ref output in
      (answer, trace_answer a masked_ref answer w2)

  module _ {T : Type 0} (model : Option (ResponseModel V T)) where
    -- A validated answer ends the loop; `next` is the loop over the attempts that are left.
    unfoldable pub judge :
        (Last V T → Exec (World W V) (Answer V T))
        → Last V T
        → Answer V T
        → Exec (World W V) (Answer V T)
    judge next last answer =
        if is_passed answer.validation.status then pure answer else next (answered_last last answer)

    unfoldable pub after_send :
        (Last V T → Exec (World W V) (Answer V T))
        → Attempt W V
        → Last V T
        → (String × Reply V) × World W V
        → Result (Answer V T) × World W V
    unfolding keep_response judge
    after_send next a last ((masked_ref, failure message), w) =
        next (failed_last last message) (trace_failure a masked_ref message w)
    after_send next a last ((masked_ref, replied response), w) =
        let (answer, w1) = keep_response model a masked_ref response w in judge next last answer w1

    -- The loop over the attempts.
    unfoldable pub complete_each : List (Attempt W V) → Last V T → Exec (World W V) (Answer V T)
    unfolding assert_allowed send after_send
    complete_each [] last w = give_up last w
    complete_each (a ∷ rest) last w =
        continue (assert_allowed a.request a.profile)
          (λ _ v. after_send (complete_each rest) a last (send a v)) w

    -- `complete`
    unfoldable pub complete :
        ModelGatewayClient W V → ModelRequest V → Exec (World W V) (Answer V T)
    unfolding complete_each
    complete client request =
        complete_each (attempts client request) (record { exception = none; answer = none })
