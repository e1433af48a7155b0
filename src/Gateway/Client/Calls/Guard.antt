-- ===== src/Gateway/Client/Calls/Guard.antt =====
-- What reaches a provider.
use se_1_rune_agent.Base.{
  ℕ, zero, suc, ◌+◌, String, Option, none, some, List, [], ◌∷◌, ◌≡◌, refl, arith, All, All-append,
}
use se_1_rune_agent.Base.Integers.{rounds}
use se_1_rune_agent.Base.Dict.{Dict}
use se_1_rune_agent.Exec.{Exec, ok, Leaves, continue_ind, if_ind}
use se_1_rune_agent.Gateway.{
  ModelRequest, ModelResponse, ModelProfile, PromptVersion, assert_allowed,
}
use se_1_rune_agent.Gateway.Client.{
  Reply, replied, failure, ResponseModel, Digests, World, ModelProvider, ModelGatewayClient,
  Attempt, Answer, Last, attempts, own_attempts, fallback_attempts,
}
use se_1_rune_agent.Gateway.Client.Calls.{
  write_artifact, read_output, keep_response, send, give_up, complete_each, complete, judge,
  after_send, is_passed,
}

module _ {W V : Type 0} where
  -- A call that the policy allows keeps `P` of what lies behind the provider.
  abbrev pub Respects : (W → Type 0) → ModelProvider W V → Type 0
  Respects P provider =
      (request : ModelRequest V) (profile : ModelProfile) (prompt : PromptVersion) (w : W)
      → assert_allowed request profile ≡ ok tt
      → P w
      → P (provider request profile prompt w).1

  own_attempts-Respects :
      (P : W → Type 0) (client : ModelGatewayClient W V) (request : ModelRequest V) (i n : ℕ)
      → Respects P client.provider
      → All (λ a. Respects P a.provider) (own_attempts client request i n)
  unfolding own_attempts
  own_attempts-Respects P client request i zero h = tt
  own_attempts-Respects P client request i (suc n) h =
      (h, own_attempts-Respects P client request (i + 1) n h)

  fallback_attempts-Respects :
      (P : W → Type 0) (provider : Option (ModelProvider W V)) (profile : Option ModelProfile)
      (prompt : PromptVersion) (request : ModelRequest V) (n : ℕ)
      → ((p : ModelProvider W V) → provider ≡ some p → Respects P p)
      → All (λ a. Respects P a.provider) (fallback_attempts provider profile prompt request n)
  fallback_attempts-Respects P (some p) (some profile) prompt request n h = (h p refl, tt)
  fallback_attempts-Respects P (some p) none prompt request n h = tt
  fallback_attempts-Respects P none profile prompt request n h = tt

  attempts-Respects :
      (P : W → Type 0) (client : ModelGatewayClient W V) (request : ModelRequest V)
      → Respects P client.provider
      → ((p : ModelProvider W V) → client.fallback_provider ≡ some p → Respects P p)
      → All (λ a. Respects P a.provider) (attempts client request)
  unfolding attempts
  attempts-Respects P client request h k =
      All-append (λ a. Respects P a.provider)
        (own_attempts client request 0 (rounds client.max_validation_retries)) _
        (own_attempts-Respects P client request 0 (rounds client.max_validation_retries) h)
        (fallback_attempts-Respects P client.fallback_provider client.fallback_profile _ request _
          k)

pub give_up-state : {S V T : Type 0} (last : Last V T) (w : S) → (give_up last w).1 ≡ w
give_up-state last w = ground arith

module _ {W V : Type 0} (digests : Digests V) (run_id step_id : String) {T : Type 0}
    (model : Option (ResponseModel V T)) where
  write_artifact-outside :
      (name : String) (payload : Dict V) (w : World W V)
      → (write_artifact digests run_id step_id name payload w).1.outside ≡ w.outside
  unfolding write_artifact
  write_artifact-outside name payload w = ground arith

  keep_response-outside :
      (a : Attempt W V) (ref : String) (response : ModelResponse V) (w : World W V)
      → (keep_response digests run_id step_id model a ref response w).1.outside ≡ w.outside
  unfolding keep_response read_output write_artifact
  keep_response-outside a ref response w = ground arith

  module _ (P : W → Type 0) where
    after_send-P :
        (next : Last V T → Exec (World W V) (Answer V T)) (a : Attempt W V) (last : Last V T)
        (sent : (String × Reply V) × World W V)
        → P sent.1.outside
        → ((l : Last V T) (w : World W V) → P w.outside → P (next l w).1.outside)
        → P (after_send digests run_id step_id model next a last sent).1.outside
    unfolding after_send judge
    after_send-P next a last ((ref, failure message), w) p later = later _ _ p
    after_send-P next a last ((ref, replied response), w) p later =
        let (answer, w1) = keep_response digests run_id step_id model a ref response w in
        let p1 : P w1.outside = rw (keep_response-outside a ref response w) p in
        if_ind (λ (m : Exec (World W V) (Answer V T)). P (m w1).1.outside)
          (is_passed answer.validation.status) (λ _. p1) (λ _. later _ _ p1)

    send-P :
        (a : Attempt W V) (w : World W V)
        → Respects P a.provider
        → assert_allowed a.request a.profile ≡ ok tt
        → P w.outside
        → P (send digests run_id step_id a w).1.outside
    unfolding send
    send-P a w respects allowed p =
        respects a.request a.profile a.prompt _ allowed (rw write_artifact-outside p)

    complete_each-P :
        (tries : List (Attempt W V)) (last : Last V T) (w : World W V)
        → All (λ a. Respects P a.provider) tries
        → P w.outside
        → P (complete_each digests run_id step_id model tries last w).1.outside
    unfolding complete_each
    complete_each-P [] last w respects p = rw (give_up-state last w) p
    complete_each-P (a ∷ rest) last w respects p =
        continue_ind (Leaves (λ v. P v.outside)) (assert_allowed a.request a.profile) _ w
          (λ _ allowed.
            after_send-P (complete_each digests run_id step_id model rest) a last
              (send digests run_id step_id a w) (send-P a w respects.0 allowed p)
              (λ l v p'. complete_each-P rest l v respects.1 p'))
          (λ e h. p)

    -- Only requests that the policy allows for the profile reach a provider: what every such call
    -- of the provider and of the fallback keeps true of the state behind them, `complete` keeps
    -- true, however it ends.
    pub complete_only_allowed :
        (client : ModelGatewayClient W V) (request : ModelRequest V) (w : World W V)
        → Respects P client.provider
        → ((p : ModelProvider W V) → client.fallback_provider ≡ some p → Respects P p)
        → P w.outside
        → P (complete digests run_id step_id model client request w).1.outside
    unfolding complete
    complete_only_allowed client request w h k p =
        complete_each-P (attempts client request) _ w (attempts-Respects P client request h k) p
