-- ===== src/Gateway/Registry/Witnesses.antt =====
-- A registry of one profile and one prompt.
use se_1_rune_agent.Base.{true, false, [], ◌∷◌, ◌≡◌, refl, select}
use se_1_rune_agent.Base.Dict.{get, put, values, index_into}
use se_1_rune_agent.Exec.{ok}
use se_1_rune_agent.Gateway.{ModelProfile, PromptVersion, dummy, node_extraction, active}
use se_1_rune_agent.Gateway.Registry.{
  ModelRegistry, new_registry, get_profile, active_prompt_for_task, serves,
}
use se_1_rune_agent.Gateway.Registry.Lookup.{active_prompt_for_task_unique}

abbrev profile : ModelProfile
profile = record {
  model_profile_id = "local";
  provider = dummy;
  model_name = "m";
  endpoint_alias = "e";
  allowed_data_classes = [];
  supports_json_schema = true;
  supports_tool_calling = false;
  max_context_tokens = 1000;
  default_temperature = 0;
  timeout_seconds = 10;
  is_active = true;
}

abbrev prompt : PromptVersion
prompt = record {
  prompt_version_id = "p1";
  task_name = node_extraction;
  template = "t";
  schema_version_ref = "v1";
  retrieval_policy_id = "r";
  created_by = "ops";
  created_at = 0;
  status = active;
}

abbrev registry : ModelRegistry
registry = new_registry (profile ∷ []) (prompt ∷ [])

profile_found : get_profile registry "local" ≡ ok profile
unfolding get_profile new_registry index_into get put
profile_found = refl

prompt_found : active_prompt_for_task registry node_extraction ≡ ok prompt
unfolding active_prompt_for_task new_registry index_into put
prompt_found = refl

active_prompt_for_task_unique_example :
    (serves node_extraction prompt ≡ true)
    × (select (serves node_extraction) (values registry.prompts) ≡ prompt ∷ [])
active_prompt_for_task_unique_example =
    active_prompt_for_task_unique registry node_extraction prompt prompt_found
