-- ===== src/Gateway/Registry.antt =====
-- src/req_tracker/model_gateway/registry.py: profiles and prompts by their ids. The entries come as
-- the lists that pydantic reads from the files.
pub mod Lookup
mod Witnesses
use se_1_rune_agent.Base.{
  ℕ, String, Bool, true, false, not, ◌&&◌, Option, none, some, List, [], ◌∷◌, select, length,
  if◌then◌else◌,
}
use se_1_rune_agent.Base.Dict.{Dict, get, values, index}
use se_1_rune_agent.Base.Text.{concat, decimal}
use se_1_rune_agent.Exec.{Result, ok, raised, registry_error}
use se_1_rune_agent.Gateway.{
  ModelProfile, PromptVersion, PromptTask, node_extraction, edge_linking, finding_reasoning,
  impact_analysis, answer_generation, PromptStatus, active,
}

pub record ModelRegistry : Type 0 where
  pub profiles : Dict ModelProfile
  pub prompts : Dict PromptVersion

unfoldable pub new_registry : List ModelProfile → List PromptVersion → ModelRegistry
new_registry profiles prompts = record {
  profiles = index (λ profile. profile.model_profile_id) profiles;
  prompts = index (λ prompt. prompt.prompt_version_id) prompts;
}

unfoldable pub get_profile : ModelRegistry → String → Result ModelProfile
get_profile registry model_profile_id = elim (get registry.profiles model_profile_id) [
  | none ↦ raised (registry_error (concat ("model profile not found: " ∷ model_profile_id ∷ [])))
  | some profile ↦
      if not profile.is_active
      then raised
          (registry_error (concat ("model profile is not active: " ∷ model_profile_id ∷ [])))
      else ok profile
]

unfoldable pub get_prompt : ModelRegistry → String → Result PromptVersion
get_prompt registry prompt_version_id = elim (get registry.prompts prompt_version_id) [
  | none ↦ raised (registry_error (concat ("prompt version not found: " ∷ prompt_version_id ∷ [])))
  | some prompt ↦ ok prompt
]

abbrev pub task_name : PromptTask → String
task_name node_extraction = "node_extraction"
task_name edge_linking = "edge_linking"
task_name finding_reasoning = "finding_reasoning"
task_name impact_analysis = "impact_analysis"
task_name answer_generation = "answer_generation"

abbrev is_task : PromptTask → PromptTask → Bool
is_task node_extraction node_extraction = true
is_task edge_linking edge_linking = true
is_task finding_reasoning finding_reasoning = true
is_task impact_analysis impact_analysis = true
is_task answer_generation answer_generation = true
is_task _ _ = false

abbrev is_active_status : PromptStatus → Bool
is_active_status active = true
is_active_status _ = false

abbrev pub serves : PromptTask → PromptVersion → Bool
serves task prompt = is_task prompt.task_name task && is_active_status prompt.status

abbrev exactly_one : PromptTask → List PromptVersion → Result PromptVersion
exactly_one task (prompt ∷ []) = ok prompt
exactly_one task matches = raised (
    registry_error (
      concat (
        "expected exactly one active prompt for task '"
        ∷ task_name task
        ∷ "', found "
        ∷ decimal (length matches)
        ∷ [])))

unfoldable pub active_prompt_for_task : ModelRegistry → PromptTask → Result PromptVersion
active_prompt_for_task registry task =
    exactly_one task (select (serves task) (values registry.prompts))
