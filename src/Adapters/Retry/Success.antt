-- ===== src/Adapters/Retry/Success.antt =====
-- An answer after failures that are tried again.
use se_1_rune_agent.Base.{
  ℕ, zero, suc, ◌+◌, ◌≤◌, ◌<◌, String, Bool, Option, some, List, [], ◌∷◌, ◌++◌, ◌≡◌, refl, ◌∙◌,
  arith, length, length-append,
}
use se_1_rune_agent.Adapters.Retry.{
  SourceAdapterRequestError, Outcome, response, Run, returned, again, judge, slept, retry_warning,
  attempt, request_with_retry,
}
use se_1_rune_agent.Adapters.Retry.Bound.{attempt-again}

module _ {A : Type 0} (world : ℕ → Outcome A) (source_type : String) (max_retries : ℕ)
    (has_sleep : Bool) (a : A) where
  -- The answer is returned with one warning for each request before it.
  abbrev pub Answers : ℕ → Option (Run A) → Type 0
  Answers k o =
      (warnings : List String) × (sleeps : List ℕ) × (o
        ≡ some (returned (some a) warnings (k + 1) sleeps))
      × (length warnings ≡ k)

  module _ (k : ℕ) (within : k ≤ max_retries) (at : world k ≡ response a)
      (retryable : (n : ℕ)
        → n < k
        → (e : SourceAdapterRequestError) × (judge source_type (world n) ≡ again e)) where
    from_request :
        (left fuel n : ℕ) (warnings : List String) (sleeps : List ℕ)
        → n + left ≡ k
        → left < fuel
        → length warnings ≡ n
        → Answers k (attempt world source_type max_retries has_sleep fuel n warnings sleeps)
    unfolding attempt judge
    from_request left zero n warnings sleeps e enough count = absurd (omega arith)
    from_request zero (suc fuel) n warnings sleeps e enough count =
        let same : n ≡ k = omega arith in
        (warnings, sleeps, rw same (rw (at, judge, attempt) refl), omega arith)
    from_request (suc left) (suc fuel) n warnings sleeps e enough count =
        let (x, h) = retryable n (omega arith) in
        let (ws, ss, eq, size) =
          from_request left fuel (n + 1) (warnings ++ retry_warning source_type x (n + 1) ∷ [])
            (slept has_sleep (n + 1) x sleeps) (omega arith) (omega arith)
            (omega (arith, length-append warnings (retry_warning source_type x (n + 1) ∷ []))) in
        (
          ws,
          ss,
          attempt-again world source_type max_retries has_sleep fuel n warnings sleeps x h
                (omega arith)
              ∙ eq,
          size,
        )

    -- If the source answers request `k`, counted from 0, with `k` at most `max_retries`, and each
    -- request before it failed in a way that is tried again, then the answer is returned, with one
    -- warning for each failure.
    pub request_with_retry-Answers :
        Answers k (request_with_retry world source_type max_retries has_sleep)
    unfolding request_with_retry
    request_with_retry-Answers =
        from_request k (suc max_retries) 0 [] [] (omega arith) (omega arith) refl
