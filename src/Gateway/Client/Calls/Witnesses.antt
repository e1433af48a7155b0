-- ===== src/Gateway/Client/Calls/Witnesses.antt =====
-- A gateway whose provider logs the requests that it is sent.
use se_1_rune_agent.Base.{◌+◌, ◌≤◌, String, true, false, none, some, List, [], ◌∷◌, ◌≡◌, refl, All}
use se_1_rune_agent.Base.Integers.{pos}
use se_1_rune_agent.Exec.{Exception, ok, raised}
use se_1_rune_agent.Debug.Traces.{empty_traces}
use se_1_rune_agent.Gateway.{
  ModelProfile, PromptVersion, ModelRequest, ModelResponse, dummy, node_extraction, active,
  assert_allowed,
}
use se_1_rune_agent.Gateway.Client.{
  replied, ModelProvider, read, ResponseModel, Digests, World, ModelGatewayClient,
}
use se_1_rune_agent.Gateway.Client.Calls.{complete}
use se_1_rune_agent.Gateway.Client.Calls.Guard.{complete_only_allowed}
use se_1_rune_agent.Gateway.Client.Calls.Refusal.{Refusal, complete_refuses}
use se_1_rune_agent.Gateway.Client.Calls.Bound.{traced, complete-traced}

-- The requests that were sent, with the profiles that they were sent to.
abbrev Log : Type 0
Log = List (ModelRequest String × ModelProfile)

abbrev response : ModelResponse String
response = record {
  model_profile_id = "local";
  prompt_version_id = "p1";
  raw_response_ref = none;
  parsed_output_ref = none;
  output = ("answer", "yes") ∷ [];
  input_tokens = none;
  output_tokens = none;
  cost_usd = none;
  latency_ms = 5;
}

abbrev logging : ModelProvider Log String
logging request profile prompt log = (replied response, (request, profile) ∷ log)

abbrev profile : ModelProfile
profile = record {
  model_profile_id = "local";
  provider = dummy;
  model_name = "m";
  endpoint_alias = "e";
  allowed_data_classes = "restricted" ∷ "public_internal" ∷ [];
  supports_json_schema = true;
  supports_tool_calling = false;
  max_context_tokens = 1000;
  default_temperature = 0;
  timeout_seconds = 10;
  is_active = true;
}

abbrev prompt : PromptVersion
prompt = record {
  prompt_version_id = "p1";
  task_name = node_extraction;
  template = "t";
  schema_version_ref = "v1";
  retrieval_policy_id = "r";
  created_by = "ops";
  created_at = 0;
  status = active;
}

abbrev client : ModelGatewayClient Log String
client = record {
  provider = logging;
  profile = profile;
  prompt = prompt;
  max_validation_retries = pos 1;
  fallback_provider = none;
  fallback_profile = none;
  fallback_prompt = none;
}

abbrev digests : Digests String
digests = record {
  hash_payload = λ d. "h";
  hash_request = λ r. "h";
  hash_call = λ run step r n. "h";
  error_text = λ m. "error";
}

abbrev as_is : ResponseModel String String
as_is = record { validate = λ d. read "parsed"; dump = λ t. [] }

abbrev unmasked : ModelRequest String
unmasked = record {
  model_profile_id = "local";
  prompt_version_id = "p1";
  payload = [];
  data_classification = "restricted";
  masking_applied = false;
  access_checked = true;
}

abbrev masked : ModelRequest String
masked = record unmasked { masking_applied = true }

abbrev world : World Log String
world = record { outside = []; trace_repo = some empty_traces; artifact_store = none }

complete_refuses_example :
    (e : Exception) × (complete digests "run_1" "step_1" (some as_is) client unmasked world
      ≡ (raised e, world))
    × Refusal client e
complete_refuses_example =
    complete_refuses digests "run_1" "step_1" (some as_is) client unmasked world refl refl

abbrev AllAllowed : Log → Type 0
AllAllowed = All (λ sent. assert_allowed sent.0 sent.1 ≡ ok tt)

complete_only_allowed_example :
    AllAllowed (complete digests "run_1" "step_1" (some as_is) client masked world).1.outside
complete_only_allowed_example =
    complete_only_allowed digests "run_1" "step_1" (some as_is) AllAllowed client masked world
      (λ request profile prompt log allowed sent. (allowed, sent)) (λ p e. cc) tt

complete-traced_example :
    traced (complete digests "run_1" "step_1" (some as_is) client masked world).1 ≤ 0 + (2 + 1)
complete-traced_example = complete-traced digests "run_1" "step_1" (some as_is) client masked world
