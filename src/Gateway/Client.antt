-- ===== src/Gateway/Client.antt =====
-- src/req_tracker/model_gateway/client.py: attempts at a request, with the fallback's after the
-- provider's own, each one checked by the policy and traced.
pub mod Calls
use se_1_rune_agent.Base.{
  ℕ, zero, suc, ◌+◌, String, Bool, Option, none, some, List, [], ◌∷◌, ◌++◌, length, if◌then◌else◌,
}
use se_1_rune_agent.Base.Integers.{ℤ, rounds}
use se_1_rune_agent.Base.Dict.{Dict, put}
use se_1_rune_agent.Base.Text.{concat, decimal, head_of}
use se_1_rune_agent.Exec.{
  Exec, Result, provider_error, runtime_error, pure, raise, modify, get_state, ◌>>=◌, ◌>>◌,
}
use se_1_rune_agent.Debug.{ValidationStatus, LlmCallTrace}
use se_1_rune_agent.Debug.Traces.{TraceRepository, record_llm_call}
use se_1_rune_agent.Gateway.{
  ModelProfile, PromptVersion, ModelRequest, ModelResponse, StructuredValidationResult,
  OutputStatus, passed, failed, repaired, assert_allowed,
}

-- What a provider answers: a response, or an exception with its text.
pub data Reply (V : Type 0) : Type 0 where
  replied : ModelResponse V → Reply V
  failure : (message : String) → Reply V

-- `ModelProvider.complete`, on the state `W` of what lies behind the providers.
abbrev pub ModelProvider : (W V : Type 0) → Type 0
ModelProvider W V = ModelRequest V → ModelProfile → PromptVersion → W → Reply V × W

-- A pydantic model: what `model_validate` reads, or the text of its error, and the dump.
pub data Parsed (T : Type 0) : Type 0 where
  read : T → Parsed T
  unread : (message : String) → Parsed T

pub record ResponseModel (V T : Type 0) : Type 0 where
  pub validate : Dict V → Parsed T
  pub dump : T → Dict V

-- What the client takes from JSON and `stable_hash`.
pub record Digests (V : Type 0) : Type 0 where
  pub hash_payload : Dict V → String
  pub hash_request : ModelRequest V → String
  pub hash_call : (run_id step_id : String) → ModelRequest V → (retry_count : ℕ) → String
  pub error_text : Option String → V

-- `LocalArtifactStore`: files by their paths.
pub record ArtifactStore (V : Type 0) : Type 0 where
  pub root : String
  pub files : Dict (Dict V)

-- The objects that a call changes.
pub record World (W V : Type 0) : Type 0 where
  pub outside : W
  pub trace_repo : Option (TraceRepository V)
  pub artifact_store : Option (ArtifactStore V)

pub record ModelGatewayClient (W V : Type 0) : Type 0 where
  pub provider : ModelProvider W V
  pub profile : ModelProfile
  pub prompt : PromptVersion
  pub max_validation_retries : ℤ
  pub fallback_provider : Option (ModelProvider W V)
  pub fallback_profile : Option ModelProfile
  pub fallback_prompt : Option PromptVersion

pub record Attempt (W V : Type 0) : Type 0 where
  pub provider : ModelProvider W V
  pub profile : ModelProfile
  pub prompt : PromptVersion
  pub request : ModelRequest V
  pub retry_count : ℕ

pub record Answer (V T : Type 0) : Type 0 where
  pub response : ModelResponse V
  pub parsed : Option T
  pub validation : StructuredValidationResult V

-- `last_exc`, and `last_response` with what goes with it.
pub record Last (V T : Type 0) : Type 0 where
  pub exception : Option String
  pub answer : Option (Answer V T)

abbrev default_to : {A : Type 0} → A → Option A → A
default_to a none = a
default_to a (some b) = b

abbrev trace_status : OutputStatus → ValidationStatus
trace_status passed = ValidationStatus.passed
trace_status failed = ValidationStatus.failed
trace_status repaired = ValidationStatus.repaired

module _ {W V : Type 0} where
  -- `n` attempts at the provider, counted from `i`.
  unfoldable pub own_attempts :
      ModelGatewayClient W V → ModelRequest V → (i n : ℕ) → List (Attempt W V)
  own_attempts client request i zero = []
  own_attempts client request i (suc n) =
      record {
        provider = client.provider;
        profile = client.profile;
        prompt = client.prompt;
        request = request;
        retry_count = i;
      }
      ∷ own_attempts client request (i + 1) n

  abbrev fallback_attempt :
      ModelProvider W V → ModelProfile → PromptVersion → ModelRequest V → ℕ → Attempt W V
  fallback_attempt provider profile prompt request retry_count = record {
    provider = provider;
    profile = profile;
    prompt = prompt;
    request = record request {
      model_profile_id = profile.model_profile_id;
      prompt_version_id = prompt.prompt_version_id;
    };
    retry_count = retry_count;
  }

  -- The fallback needs a provider and a profile.
  abbrev pub fallback_attempts :
      Option (ModelProvider W V)
      → Option ModelProfile
      → PromptVersion
      → ModelRequest V
      → (retry_count : ℕ) → List (Attempt W V)
  fallback_attempts (some provider) (some profile) prompt request retry_count =
      fallback_attempt provider profile prompt request retry_count ∷ []
  fallback_attempts _ _ prompt request retry_count = []

  -- `_attempts`; the fallback counts on from the attempts at the provider itself.
  unfoldable pub attempts : ModelGatewayClient W V → ModelRequest V → List (Attempt W V)
  unfolding own_attempts
  attempts client request =
      own_attempts client request 0 (rounds client.max_validation_retries)
      ++ fallback_attempts client.fallback_provider client.fallback_profile
          (default_to client.prompt client.fallback_prompt) request
          (rounds client.max_validation_retries)
