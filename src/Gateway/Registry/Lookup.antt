-- ===== src/Gateway/Registry/Lookup.antt =====
-- What a lookup in a registry returns.
use se_1_rune_agent.Base.{
  String, Bool, true, some, List, [], ◌∷◌, ◌≡◌, arith, select, All, subst, Bool-cases, inl, inr,
}
use se_1_rune_agent.Base.Dict.{get, values, index_into-Keyed, empty-Keyed}
use se_1_rune_agent.Exec.{ok}
use se_1_rune_agent.Gateway.{ModelProfile, PromptVersion, PromptTask}
use se_1_rune_agent.Gateway.Registry.{
  ModelRegistry, new_registry, get_profile, active_prompt_for_task, serves, exactly_one,
}

found_profile :
    (registry : ModelRegistry) (id : String) (profile : ModelProfile)
    → get_profile registry id ≡ ok profile
    → (get registry.profiles id ≡ some profile) × (profile.is_active ≡ true)
unfolding get_profile
found_profile registry id profile h = ground arith

-- A profile that a registry returns for an id has this id and is active.
pub get_profile-active :
    (profiles : List ModelProfile) (prompts : List PromptVersion) (id : String)
    (profile : ModelProfile)
    → get_profile (new_registry profiles prompts) id ≡ ok profile
    → (profile.model_profile_id ≡ id) × (profile.is_active ≡ true)
unfolding new_registry
get_profile-active profiles prompts id profile h =
    let (there, on) = found_profile (new_registry profiles prompts) id profile h in
    (
      index_into-Keyed (λ p. p.model_profile_id) [] profiles (empty-Keyed (λ p. p.model_profile_id))
          id profile there,
      on,
    )

select-All : {A : Type 0} (f : A → Bool) (xs : List A) → All (λ x. f x ≡ true) (select f xs)
select-All f [] = tt
select-All f (x ∷ xs) = elim (Bool-cases (f x)) [
  | inl kept ↦ rw kept (kept, select-All f xs)
  | inr left ↦ rw left (select-All f xs)
]

only_one :
    (task : PromptTask) (matches : List PromptVersion) (prompt : PromptVersion)
    → exactly_one task matches ≡ ok prompt
    → matches ≡ prompt ∷ []
only_one task [] prompt h = cc
only_one task (p ∷ []) prompt h = ground arith
only_one task (p ∷ q ∷ ps) prompt h = cc

-- The prompt that a registry returns for a task is for this task and active, and no other prompt
-- of the registry is both.
pub active_prompt_for_task_unique :
    (registry : ModelRegistry) (task : PromptTask) (prompt : PromptVersion)
    → active_prompt_for_task registry task ≡ ok prompt
    → (serves task prompt ≡ true) × (select (serves task) (values registry.prompts) ≡ prompt ∷ [])
unfolding active_prompt_for_task
active_prompt_for_task_unique registry task prompt h =
    let one = only_one task (select (serves task) (values registry.prompts)) prompt h in
    let served =
      subst (All (λ p. serves task p ≡ true)) one
        (select-All (serves task) (values registry.prompts)) in
    (served.0, one)
