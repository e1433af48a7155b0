-- ===== src/Adapters/Retry.antt =====
-- src/req_tracker/adapters/retry.py, and the request error of src/req_tracker/adapters/base.py. A
-- duration is a number of hundredths of a second. The answers of the source are given by the number
-- of the request, from 0.
pub mod Bound
pub mod Success
pub mod Witnesses
use se_1_rune_agent.Base.{
  ℕ, zero, suc, ◌+◌, ◌-◌, ◌*◌, ◌^◌, min, max, String, Bool, true, false, ◌&&◌, ◌||◌, Option, none,
  some, List, [], ◌∷◌, ◌++◌, ◌==◌, leb, eqb, if◌then◌else◌,
}
use se_1_rune_agent.Base.Text.{concat, decimal}

pub record SourceAdapterRequestError : Type 0 where
  pub message : String
  pub status_code : Option ℕ
  pub retry_after_seconds : Option ℕ
  pub code : String

unfoldable pub status_label : SourceAdapterRequestError → String
status_label e = elim e.status_code [ none ↦ e.code | some n ↦ decimal n ]

abbrev denies : Option ℕ → Bool
denies none = false
denies (some n) = eqb n 401 || eqb n 403

abbrev pub is_permission_denied : SourceAdapterRequestError → Bool
is_permission_denied e = denies e.status_code

abbrev transient : Option ℕ → Bool
transient none = false
transient (some n) = (eqb n 408 || eqb n 409 || eqb n 425 || eqb n 429) || (leb 500 n && leb n 599)

abbrev pub is_retryable : SourceAdapterRequestError → Bool
is_retryable e =
    if transient e.status_code then true else e.code == "network_error" || e.code == "timeout"

-- What a request does: an answer, an OSError, a request error, or another exception.
pub data Outcome (A : Type 0) : Type 0 where
  response : A → Outcome A
  os_error : String → Outcome A
  request_error : SourceAdapterRequestError → Outcome A
  other_error : String → Outcome A

-- How an outcome is taken: the branches of the `try` that end the loop, and those that may retry.
pub data Verdict (A : Type 0) : Type 0 where
  answered : A → Verdict A
  refused : (warnings : List String) → Verdict A
  broken : String → Verdict A
  again : SourceAdapterRequestError → Verdict A

-- What the run leaves: its value and warnings, and the requests and sleeps that were made.
pub data Run (A : Type 0) : Type 0 where
  returned : (answer : Option A) (warnings : List String) (calls : ℕ) (sleeps : List ℕ) → Run A
  propagated : (message : String) (calls : ℕ) (sleeps : List ℕ) → Run A

abbrev pub network_error : String → String → SourceAdapterRequestError
network_error source_type text = record {
  message = concat (source_type ∷ " network request failed: " ∷ text ∷ []);
  status_code = none;
  retry_after_seconds = none;
  code = "network_error";
}

abbrev pub backoff : ℕ → ℕ
backoff retry_count = min (25 * 2 ^ max (retry_count - 1) 0) 200

abbrev delay : Option ℕ → ℕ → ℕ
delay none retry_count = backoff retry_count
delay (some t) retry_count = t

-- `_sleep_before_retry`, by the sleeps that were made so far.
abbrev pub slept : Bool → ℕ → SourceAdapterRequestError → List ℕ → List ℕ
slept false retry_count e sleeps = sleeps
slept true retry_count e sleeps = sleeps ++ delay e.retry_after_seconds retry_count ∷ []

module _ (source_type : String) where
  abbrev pub warning : String → SourceAdapterRequestError → String
  warning kind e = concat (source_type ∷ kind ∷ ":" ∷ status_label e ∷ [])

  abbrev pub retry_warning : SourceAdapterRequestError → ℕ → String
  retry_warning e retry_count =
      concat
        (source_type ∷ "_request_retry:" ∷ status_label e ∷ ":attempt_" ∷ decimal retry_count ∷ [])

  abbrev judge_error : {A : Type 0} → SourceAdapterRequestError → Verdict A
  judge_error e =
      if is_permission_denied e
      then refused (warning "_permission_denied" e ∷ [])
      else if is_retryable e
      then again e
      else refused (warning "_request_failed" e ∷ [])

  unfoldable pub judge : {A : Type 0} → Outcome A → Verdict A
  unfolding concat status_label
  judge (response a) = answered a
  judge (other_error x) = broken x
  judge (os_error text) = again (network_error source_type text)
  judge (request_error e) = judge_error e

module _ {A : Type 0} (world : ℕ → Outcome A) (source_type : String) (max_retries : ℕ)
    (has_sleep : Bool) where
  -- The loop of `request_with_retry`; `none` is the end of the fuel.
  unfoldable pub attempt : ℕ → ℕ → List String → List ℕ → Option (Run A)
  unfolding concat status_label judge
  attempt zero retry_count warnings sleeps = none
  attempt (suc fuel) retry_count warnings sleeps = elim (judge source_type (world retry_count)) [
    | answered a ↦ some (returned (some a) warnings (retry_count + 1) sleeps)
    | refused ws ↦ some (returned none ws (retry_count + 1) sleeps)
    | broken x ↦ some (propagated x (retry_count + 1) sleeps)
    | again e ↦ elim (leb max_retries retry_count) [
      | true ↦ some (
          returned none (warnings ++ warning source_type "_request_failed_after_retries" e ∷ [])
            (retry_count + 1) sleeps)
      | false ↦
          attempt fuel (retry_count + 1)
            (warnings ++ retry_warning source_type e (retry_count + 1) ∷ [])
            (slept has_sleep (retry_count + 1) e sleeps)
    ]
  ]

  -- One round more than retries.
  unfoldable pub request_with_retry : Option (Run A)
  unfolding attempt
  request_with_retry = attempt (suc max_retries) 0 [] []
