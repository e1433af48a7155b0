-- ===== src/Gateway/Client/Calls/Bound.antt =====
-- How many calls are traced.
use se_1_rune_agent.Base.{
  ℕ, zero, suc, ◌+◌, ◌≤◌, String, Option, none, some, List, [], ◌∷◌, ◌≡◌, refl, ap, arith, length,
  length-append,
}
use se_1_rune_agent.Base.Integers.{rounds}
use se_1_rune_agent.Base.Dict.{Dict, length-put}
use se_1_rune_agent.Exec.{Exec, Leaves, continue_ind, if_ind}
use se_1_rune_agent.Debug.{LlmCallTrace}
use se_1_rune_agent.Debug.Traces.{TraceRepository, record_llm_call}
use se_1_rune_agent.Gateway.{
  ModelRequest, ModelResponse, ModelProfile, PromptVersion, assert_allowed,
}
use se_1_rune_agent.Gateway.Client.{
  Reply, replied, failure, ResponseModel, Digests, World, ModelProvider, ModelGatewayClient,
  Attempt, Answer, Last, attempts, own_attempts, fallback_attempts,
}
use se_1_rune_agent.Gateway.Client.Calls.{
  write_artifact, read_output, keep_response, send, complete_each, complete, judge, after_send,
  is_passed, failed_last, answered_last, record_trace, option_map, artifact_name, trace_failure,
}
use se_1_rune_agent.Gateway.Client.Calls.Guard.{give_up-state}

abbrev calls_in : {V : Type 0} → Option (TraceRepository V) → ℕ
calls_in none = 0
calls_in (some repo) = length repo.llm_calls

abbrev pub traced : {W V : Type 0} → World W V → ℕ
traced w = calls_in w.trace_repo

traced-record_trace :
    {W V : Type 0} (trace : LlmCallTrace) (w : World W V)
    → traced (record_trace trace w) ≤ traced w + 1
unfolding record_llm_call
traced-record_trace trace w =
    elim w.trace_repo as (λ o. calls_in (option_map (record_llm_call trace) o) ≤ calls_in o + 1) [
      | none ↦ omega arith
      | some repo ↦ ground (arith, length-put repo.llm_calls trace.llm_call_id trace)
    ]

module _ {W V : Type 0} where
  length-own_attempts :
      (client : ModelGatewayClient W V) (request : ModelRequest V) (i n : ℕ)
      → length (own_attempts client request i n) ≡ n
  unfolding own_attempts
  length-own_attempts client request i zero = refl
  length-own_attempts client request i (suc n) =
      ap suc (length-own_attempts client request (i + 1) n)

  length-fallback_attempts :
      (provider : Option (ModelProvider W V)) (profile : Option ModelProfile)
      (prompt : PromptVersion) (request : ModelRequest V) (n : ℕ)
      → length (fallback_attempts provider profile prompt request n) ≤ 1
  length-fallback_attempts (some p) (some profile) prompt request n = omega arith
  length-fallback_attempts (some p) none prompt request n = omega arith
  length-fallback_attempts none profile prompt request n = omega arith

  length-attempts :
      (client : ModelGatewayClient W V) (request : ModelRequest V)
      → length (attempts client request) ≤ rounds client.max_validation_retries + 1
  unfolding attempts
  length-attempts client request =
      let own = own_attempts client request 0 (rounds client.max_validation_retries) in
      omega (
        arith,
        length-append own _,
        length-own_attempts client request 0 (rounds client.max_validation_retries),
        length-fallback_attempts client.fallback_provider client.fallback_profile _ request
            (rounds client.max_validation_retries),
      )

module _ {W V : Type 0} (digests : Digests V) (run_id step_id : String) {T : Type 0}
    (model : Option (ResponseModel V T)) where
  send-traced :
      (a : Attempt W V) (w : World W V)
      → (send digests run_id step_id a w).1.trace_repo ≡ w.trace_repo
  unfolding send write_artifact
  send-traced a w = ground arith

  write_artifact-traces :
      (name : String) (payload : Dict V) (w : World W V)
      → (write_artifact digests run_id step_id name payload w).1.trace_repo ≡ w.trace_repo
  unfolding write_artifact
  write_artifact-traces name payload w = ground arith

  read_output-traces :
      (m : Option (ResponseModel V T)) (a : Attempt W V) (response : ModelResponse V) (ref : String)
      (w : World W V)
      → (read_output digests run_id step_id m a response ref w).1.trace_repo ≡ w.trace_repo
  unfolding read_output
  read_output-traces none a response ref w = refl
  read_output-traces (some m) a response ref w = write_artifact-traces _ _ w

  keep_response-traced :
      (a : Attempt W V) (ref : String) (response : ModelResponse V) (w : World W V)
      → traced (keep_response digests run_id step_id model a ref response w).1 ≤ traced w + 1
  unfolding keep_response
  keep_response-traced a ref response w =
      let (raw_ref, w1) =
        write_artifact digests run_id step_id (artifact_name step_id "_raw_response_" a.retry_count)
          response.output w in
      let w2 = (read_output digests run_id step_id model a response raw_ref w1).1 in
      omega (
        arith,
        traced-record_trace _ w2,
        ap calls_in (read_output-traces model a response raw_ref w1),
        ap calls_in (
            write_artifact-traces (artifact_name step_id "_raw_response_" a.retry_count)
              response.output w),
      )

  after_send-traced :
      (next : Last V T → Exec (World W V) (Answer V T)) (a : Attempt W V) (last : Last V T)
      (sent : (String × Reply V) × World W V) (n : ℕ)
      → ((l : Last V T) (w : World W V) → traced (next l w).1 ≤ traced w + n)
      → traced (after_send digests run_id step_id model next a last sent).1 ≤ traced sent.1 + suc n
  unfolding after_send judge
  after_send-traced next a last ((ref, failure message), w) n later = omega (
    arith,
    later (failed_last last message) (trace_failure digests run_id step_id a ref message w),
    traced-record_trace _ w,
  )
  after_send-traced next a last ((ref, replied response), w) n later =
      let (answer, w1) = keep_response digests run_id step_id model a ref response w in
      let kept = keep_response-traced a ref response w in
      if_ind (λ (m : Exec (World W V) (Answer V T)). traced (m w1).1 ≤ traced w + suc n)
        (is_passed answer.validation.status) (λ _. omega (arith, kept))
        (λ _. omega (arith, kept, later (answered_last last answer) w1))

  complete_each-traced :
      (tries : List (Attempt W V)) (last : Last V T) (w : World W V)
      → traced (complete_each digests run_id step_id model tries last w).1 ≤ traced w + length tries
  unfolding complete_each
  complete_each-traced [] last w = omega (arith, ap traced (give_up-state last w))
  complete_each-traced (a ∷ rest) last w =
      continue_ind (Leaves (λ v. traced v ≤ traced w + suc (length rest)))
        (assert_allowed a.request a.profile) _ w
        (λ _ allowed. rw (ap calls_in (send-traced a w)) at (
          after_send-traced (complete_each digests run_id step_id model rest) a last
            (send digests run_id step_id a w) (length rest) (λ l v. complete_each-traced rest l v)))
        (λ e h. omega arith)

  -- However it ends, `complete` traces at most two calls more than there are retries: the first
  -- one, the retries, and the fallback's; and at most the fallback's one if the number of retries
  -- is negative.
  pub complete-traced :
      (client : ModelGatewayClient W V) (request : ModelRequest V) (w : World W V)
      → traced (complete digests run_id step_id model client request w).1
        ≤ traced w + (rounds client.max_validation_retries + 1)
  unfolding complete
  complete-traced client request w = omega (
    arith,
    complete_each-traced (attempts client request) (record { exception = none; answer = none }) w,
    length-attempts client request,
  )
