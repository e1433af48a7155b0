-- ===== src/Gateway/Client/Calls/Refusal.antt =====
-- Sensitive requests that are not masked, or not access-checked.
use se_1_rune_agent.Base.{
  ℕ, String, Bool, true, false, not, ◌&&◌, ◌==◌, Option, none, some, List, [], ◌∷◌, ◌++◌, ◌≡◌, ◌⊎◌,
  inl, inr, refl, elem, if◌then◌else◌,
}
use se_1_rune_agent.Base.Integers.{ℤ, pos, negsuc, rounds}
use se_1_rune_agent.Exec.{Exception, Result, ok, raised, policy_error, if_ind}
use se_1_rune_agent.Gateway.{
  ModelRequest, ModelProfile, PromptVersion, is_sensitive, assert_allowed, assert_protected,
}
use se_1_rune_agent.Gateway.Client.{
  ResponseModel, Digests, World, ModelProvider, ModelGatewayClient, Attempt, Answer, Last, attempts,
  own_attempts, fallback_attempts,
}
use se_1_rune_agent.Gateway.Client.Calls.{complete_each, complete}
use se_1_rune_agent.Gateway.Client.Calls.Answers.{exhausted}

abbrev Refused : Result (Unit {0}) → Type 0
Refused r = (message : String) × (r ≡ raised (policy_error message))

unprotected-Refused :
    (masked checked : Bool) (x y : String)
    → (masked && checked) ≡ false
    → Refused (
        if not masked
        then raised (policy_error x)
        else (if not checked then raised (policy_error y) else ok tt))
unprotected-Refused false checked x y bare = (x, refl)
unprotected-Refused true false x y bare = (y, refl)
unprotected-Refused true true x y bare = cc

module _ {V : Type 0} where
  assert_protected-Refused :
      (request : ModelRequest V)
      → is_sensitive request.data_classification ≡ true
      → (request.masking_applied && request.access_checked) ≡ false
      → Refused (assert_protected request)
  assert_protected-Refused request sensitive bare =
      rw sensitive (unprotected-Refused request.masking_applied request.access_checked _ _ bare)

  assert_allowed-Refused :
      (request : ModelRequest V) (profile : ModelProfile)
      → is_sensitive request.data_classification ≡ true
      → (request.masking_applied && request.access_checked) ≡ false
      → Refused (assert_allowed request profile)
  unfolding assert_allowed
  assert_allowed-Refused request profile sensitive bare =
      if_ind Refused (not (request.model_profile_id == profile.model_profile_id)) (λ _. (_, refl))
        (λ _.
          if_ind Refused (not (elem request.data_classification profile.allowed_data_classes))
            (λ _. (_, refl)) (λ _. assert_protected-Refused request sensitive bare))

module _ {W V : Type 0} where
  -- The policy's error; or, where a negative number of retries and no fallback leave no attempt,
  -- the error of exhausted attempts.
  abbrev pub Refusal : ModelGatewayClient W V → Exception → Type 0
  Refusal client e =
      ((message : String) × (e ≡ policy_error message))
      ⊎ ((n : ℕ) × (client.max_validation_retries ≡ negsuc n)) × (e ≡ exhausted)

module _ {W V : Type 0} (digests : Digests V) (run_id step_id : String) {T : Type 0}
    (model : Option (ResponseModel V T)) where
  no_attempts :
      (w : World W V)
      → complete_each digests run_id step_id model [] (record { exception = none; answer = none }) w
        ≡ (raised exhausted, w)
  unfolding complete_each
  no_attempts w = refl

  abbrev Refuses : ModelGatewayClient W V → World W V → Result (Answer V T) × World W V → Type 0
  Refuses client w outcome = (e : Exception) × (outcome ≡ (raised e, w)) × Refusal client e

  first_attempt-Refuses :
      (client : ModelGatewayClient W V) (a : Attempt W V) (rest : List (Attempt W V))
      (last : Last V T) (w : World W V)
      → is_sensitive a.request.data_classification ≡ true
      → (a.request.masking_applied && a.request.access_checked) ≡ false
      → Refuses client w (complete_each digests run_id step_id model (a ∷ rest) last w)
  unfolding complete_each
  first_attempt-Refuses client a rest last w sensitive bare =
      let (message, e) = assert_allowed-Refused a.request a.profile sensitive bare in
      (policy_error message, rw e refl, inl (message, refl))

  attempts-Refuses :
      (client : ModelGatewayClient W V) (request : ModelRequest V) (w : World W V) (retries : ℤ)
      (provider : Option (ModelProvider W V)) (profile : Option ModelProfile)
      (prompt : PromptVersion)
      → is_sensitive request.data_classification ≡ true
      → (request.masking_applied && request.access_checked) ≡ false
      → client.max_validation_retries ≡ retries
      → Refuses client w (
          complete_each digests run_id step_id model
            (own_attempts client request 0 (rounds retries)
              ++ fallback_attempts provider profile prompt request (rounds retries))
            (record { exception = none; answer = none })
            w)
  unfolding own_attempts
  attempts-Refuses client request w (pos n) provider profile prompt sensitive bare same =
      first_attempt-Refuses client _ _ _ w sensitive bare
  attempts-Refuses client request w (negsuc n) (some p) (some f) prompt sensitive bare same =
      first_attempt-Refuses client _ _ _ w sensitive bare
  attempts-Refuses client request w (negsuc n) (some p) none prompt sensitive bare same =
      (exhausted, no_attempts w, inr ((n, same), refl))
  attempts-Refuses client request w (negsuc n) none profile prompt sensitive bare same =
      (exhausted, no_attempts w, inr ((n, same), refl))

  -- A restricted or confidential request that is not both masked and access-checked is refused:
  -- `complete` raises the policy's error, or, if the number of retries is negative, that of
  -- exhausted attempts, and nothing happens: no provider is called, no artifact written, nothing
  -- traced.
  pub complete_refuses :
      (client : ModelGatewayClient W V) (request : ModelRequest V) (w : World W V)
      → is_sensitive request.data_classification ≡ true
      → (request.masking_applied && request.access_checked) ≡ false
      → (e : Exception) × (complete digests run_id step_id model client request w ≡ (raised e, w))
        × Refusal client e
  unfolding complete attempts
  complete_refuses client request w sensitive bare =
      attempts-Refuses client request w client.max_validation_retries client.fallback_provider
        client.fallback_profile _ sensitive bare refl
