-- ===== src/Adapters/Retry/Witnesses.antt =====
-- A source that fails twice, and then answers.
use se_1_rune_agent.Base.{
  ℕ, zero, suc, ◌<◌, String, true, some, List, [], ◌∷◌, ◌≡◌, refl, length, arith,
}
use se_1_rune_agent.Base.Text.{decimal}
use se_1_rune_agent.Adapters.Retry.{
  SourceAdapterRequestError, Outcome, response, os_error, request_error, Run, returned, again,
  judge, network_error, request_with_retry,
}
use se_1_rune_agent.Adapters.Retry.Bound.{Bounded, request_with_retry_ends}
use se_1_rune_agent.Adapters.Retry.Success.{request_with_retry-Answers}

abbrev unavailable : SourceAdapterRequestError
unavailable = record {
  message = "unavailable";
  status_code = some 503;
  retry_after_seconds = some 700;
  code = "request_error";
}

abbrev source : ℕ → Outcome String
source zero = os_error "reset"
source (suc zero) = request_error unavailable
source _ = response "issues"

sample_run :
    request_with_retry source "jira" 3 true
    ≡ some (
        returned
          (some "issues")
          ("jira_request_retry:network_error:attempt_1" ∷ "jira_request_retry:503:attempt_2" ∷ [])
          3
          (25 ∷ 700 ∷ []))
unfolding request_with_retry decimal
sample_run = refl

request_with_retry_ends_example :
    (run : Run String) × (request_with_retry source "jira" 3 true ≡ some run) × Bounded 4 run
request_with_retry_ends_example = request_with_retry_ends source "jira" 3 true

fails_before :
    (n : ℕ) → n < 2 → (e : SourceAdapterRequestError) × (judge "jira" (source n) ≡ again e)
unfolding judge
fails_before zero h = (network_error "jira" "reset", refl)
fails_before (suc zero) h = (unavailable, refl)
fails_before (suc (suc n)) h = absurd (omega arith)

request_with_retry-Answers_example :
    (warnings : List String) × (sleeps : List ℕ) × (request_with_retry source "jira" 3 true
      ≡ some (returned (some "issues") warnings 3 sleeps))
    × (length warnings ≡ 2)
request_with_retry-Answers_example =
    request_with_retry-Answers source "jira" 3 true "issues" 2 (omega arith) refl fails_before
