-- ===== src/Gateway.antt =====
-- src/req_tracker/model_gateway/models.py and policy.py: requests to models, and who may send them.
pub mod Client
pub mod Registry
use se_1_rune_agent.Base.{
  ℕ, String, Bool, true, false, not, ◌||◌, Option, List, [], ◌∷◌, ◌==◌, elem, if◌then◌else◌,
}
use se_1_rune_agent.Base.Dict.{Dict}
use se_1_rune_agent.Base.Text.{concat}
use se_1_rune_agent.Exec.{Result, ok, raised, policy_error}

pub data ProviderName : Type 0 where
  internal openai anthropic azure local dummy : ProviderName

pub data PromptTask : Type 0 where
  node_extraction edge_linking finding_reasoning impact_analysis answer_generation : PromptTask

pub data PromptStatus : Type 0 where
  draft eval_ready canary active retired : PromptStatus

-- The temperature is counted in hundredths.
pub record ModelProfile : Type 0 where
  pub model_profile_id : String
  pub provider : ProviderName
  pub model_name : String
  pub endpoint_alias : String
  pub allowed_data_classes : List String
  pub supports_json_schema : Bool
  pub supports_tool_calling : Bool
  pub max_context_tokens : ℕ
  pub default_temperature : ℕ
  pub timeout_seconds : ℕ
  pub is_active : Bool

pub record PromptVersion : Type 0 where
  pub prompt_version_id : String
  pub task_name : PromptTask
  pub template : String
  pub schema_version_ref : String
  pub retrieval_policy_id : String
  pub created_by : String
  pub created_at : ℕ
  pub status : PromptStatus

-- `V` is the type of the values in the dicts.
pub record ModelRequest (V : Type 0) : Type 0 where
  pub model_profile_id : String
  pub prompt_version_id : String
  pub payload : Dict V
  pub data_classification : String
  pub masking_applied : Bool
  pub access_checked : Bool

-- The cost is counted in millionths of a dollar.
pub record ModelResponse (V : Type 0) : Type 0 where
  pub model_profile_id : String
  pub prompt_version_id : String
  pub raw_response_ref : Option String
  pub parsed_output_ref : Option String
  pub output : Dict V
  pub input_tokens : Option ℕ
  pub output_tokens : Option ℕ
  pub cost_usd : Option ℕ
  pub latency_ms : ℕ

pub data OutputStatus : Type 0 where
  passed failed repaired : OutputStatus

pub record StructuredValidationResult (V : Type 0) : Type 0 where
  pub status : OutputStatus
  pub error_message : Option String
  pub repaired_output : Option (Dict V)

abbrev class_message : String → String → String
class_message data_class message =
    concat ("data classification '" ∷ data_class ∷ "'" ∷ message ∷ [])

abbrev pub is_sensitive : String → Bool
is_sensitive data_class = (data_class == "restricted") || (data_class == "confidential")

module _ {V : Type 0} where
  -- A sensitive request has to be masked and access-checked.
  abbrev assert_protected : ModelRequest V → Result (Unit {0})
  assert_protected request =
      if is_sensitive request.data_classification
      then (if not request.masking_applied
          then raised (policy_error (class_message request.data_classification " requires masking"))
          else (if not request.access_checked
              then raised (
                  policy_error (class_message request.data_classification " requires access check"))
              else ok tt))
      else ok tt

  -- `ModelPolicy.assert_allowed`
  unfoldable pub assert_allowed : ModelRequest V → ModelProfile → Result (Unit {0})
  assert_allowed request profile =
      if not (request.model_profile_id == profile.model_profile_id)
      then raised (policy_error "request model_profile_id does not match active profile")
      else (if not (elem request.data_classification profile.allowed_data_classes)
          then raised (
              policy_error (
                class_message request.data_classification (
                  concat
                    (" is not allowed for model profile '" ∷ profile.model_profile_id ∷ "'" ∷ []))))
          else assert_protected request)
