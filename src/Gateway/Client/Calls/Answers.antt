-- ===== src/Gateway/Client/Calls/Answers.antt =====
-- What `complete` returns: the reading of the output that it returns, or the exception of a
-- refused or failed call.
use se_1_rune_agent.Base.{
  Bool, true, false, ◌||◌, is_some, Option, none, some, List, [], ◌∷◌, ◌≡◌, ◌≢◌,
}
use se_1_rune_agent.Exec.{Exec, Result, ok, raised, Exception, runtime_error}
use se_1_rune_agent.Gateway.{passed}
use se_1_rune_agent.Gateway.Client.{ResponseModel, Answer, Last}
use se_1_rune_agent.Gateway.Client.Calls.{judged, result_of}

abbrev pub exhausted : Exception
exhausted = runtime_error "model gateway attempts exhausted"

module _ {V T : Type 0} where
  -- With a response model, what was parsed and how it was judged are the model's reading of the
  -- returned output; without one nothing is parsed and the output passes.
  abbrev pub IsSound : Option (ResponseModel V T) → Answer V T → Type 0
  IsSound none answer = (answer.parsed ≡ none) × (answer.validation ≡ result_of passed none)
  IsSound (some m) answer =
      (answer.parsed, answer.validation) ≡ judged (m.validate answer.response.output)

  abbrev pub Fine : {S : Type 0} → Option (ResponseModel V T) → Result (Answer V T) × S → Type 0
  Fine model (ok answer, w) = IsSound model answer
  Fine model (raised e, w) = e ≢ exhausted

  abbrev SoundLast : Option (ResponseModel V T) → Last V T → Type 0
  SoundLast model last = (answer : Answer V T) → last.answer ≡ some answer → IsSound model answer

  abbrev has_spoken : Last V T → Bool
  has_spoken last = is_some last.answer || is_some last.exception

abbrev some_left : {A : Type 0} → List A → Bool
some_left [] = false
some_left (x ∷ xs) = true
