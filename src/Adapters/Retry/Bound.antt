-- ===== src/Adapters/Retry/Bound.antt =====
-- The number of requests and of sleeps.
use se_1_rune_agent.Base.{
  ℕ, zero, suc, ◌+◌, ◌≤◌, ◌<◌, String, Bool, true, false, Option, none, some, List, [], ◌∷◌, ◌++◌,
  ◌≡◌, refl, ◌∙◌, arith, length, length-append, leb, Bool-cases, inl, inr,
}
use se_1_rune_agent.Adapters.Retry.{
  SourceAdapterRequestError, Outcome, Run, returned, propagated, Verdict, answered, refused, broken,
  again, slept, judge, warning, retry_warning, attempt, request_with_retry,
}

-- At most `n` requests were made, and fewer sleeps than requests.
abbrev pub Bounded : {A : Type 0} → ℕ → Run A → Type 0
Bounded n (returned answer warnings calls sleeps) = (calls ≤ n) × (length sleeps < calls)
Bounded n (propagated x calls sleeps) = (calls ≤ n) × (length sleeps < calls)

slept-length :
    (b : Bool) (n : ℕ) (e : SourceAdapterRequestError) (sleeps : List ℕ)
    → length (slept b n e sleeps) ≤ length sleeps + 1
slept-length false n e sleeps = omega arith
slept-length true n e sleeps = omega (arith, length-append sleeps (slept true n e []))

module _ {A : Type 0} (world : ℕ → Outcome A) (source_type : String) (max_retries : ℕ)
    (has_sleep : Bool) where
  abbrev next : ℕ → ℕ → List String → List ℕ → SourceAdapterRequestError → Option (Run A)
  next fuel n warnings sleeps e =
      attempt world source_type max_retries has_sleep fuel (n + 1)
        (warnings ++ retry_warning source_type e (n + 1) ∷ []) (slept has_sleep (n + 1) e sleeps)

  -- A retry goes on with the next request.
  pub attempt-again :
      (fuel n : ℕ) (warnings : List String) (sleeps : List ℕ) (e : SourceAdapterRequestError)
      → judge source_type (world n) ≡ again e
      → n < max_retries
      → attempt world source_type max_retries has_sleep (suc fuel) n warnings sleeps
        ≡ next fuel n warnings sleeps e
  unfolding attempt
  attempt-again fuel n warnings sleeps e h less =
      let more : leb max_retries n ≡ false = ground arith in
      rw (h, attempt) (rw (more, attempt) refl)

  abbrev Ends : Option (Run A) → Type 0
  Ends o = (run : Run A) × (o ≡ some run) × Bounded (suc max_retries) run

  -- One round: it ends, or the next one does.
  round :
      (fuel n : ℕ) (warnings : List String) (sleeps : List ℕ) (v : Verdict A)
      → judge source_type (world n) ≡ v
      → n ≤ max_retries
      → length sleeps ≤ n
      → ((e : SourceAdapterRequestError) → n < max_retries → Ends (next fuel n warnings sleeps e))
      → Ends (attempt world source_type max_retries has_sleep (suc fuel) n warnings sleeps)
  unfolding attempt
  round fuel n warnings sleeps (answered a) h le short go =
      (returned (some a) warnings (n + 1) sleeps, rw (h, attempt) refl, (omega arith, omega arith))
  round fuel n warnings sleeps (refused ws) h le short go =
      (returned none ws (n + 1) sleeps, rw (h, attempt) refl, (omega arith, omega arith))
  round fuel n warnings sleeps (broken x) h le short go =
      (propagated x (n + 1) sleeps, rw (h, attempt) refl, (omega arith, omega arith))
  round fuel n warnings sleeps (again e) h le short go = elim (Bool-cases (leb max_retries n)) [
    | inl last ↦ (
      returned none (warnings ++ warning source_type "_request_failed_after_retries" e ∷ []) (n + 1)
          sleeps,
      rw (h, attempt) (rw (last, attempt) refl),
      (omega arith, omega arith),
    )
    | inr more ↦
        let (run, eq, bound) = go e (ground arith) in
        (run, attempt-again fuel n warnings sleeps e h (ground arith) ∙ eq, bound)
  ]

  attempt-Ends :
      (fuel n : ℕ) (warnings : List String) (sleeps : List ℕ)
      → suc max_retries ≤ fuel + n
      → n ≤ max_retries
      → length sleeps ≤ n
      → Ends (attempt world source_type max_retries has_sleep fuel n warnings sleeps)
  attempt-Ends zero n warnings sleeps enough le short = absurd (omega arith)
  attempt-Ends (suc fuel) n warnings sleeps enough le short =
      round fuel n warnings sleeps (judge source_type (world n)) refl le short (λ e less.
        attempt-Ends fuel (n + 1) (warnings ++ retry_warning source_type e (n + 1) ∷ [])
          (slept has_sleep (n + 1) e sleeps) (omega arith) (omega arith)
          (omega (arith, slept-length has_sleep (n + 1) e sleeps)))

  -- Whatever the source answers, the requests end after at most one request and `max_retries`
  -- retries, and there are fewer sleeps than requests.
  pub request_with_retry_ends :
      (run : Run A) × (request_with_retry world source_type max_retries has_sleep ≡ some run)
      × Bounded (suc max_retries) run
  unfolding request_with_retry
  request_with_retry_ends =
      attempt-Ends (suc max_retries) 0 [] [] (omega arith) (omega arith) (omega arith)
