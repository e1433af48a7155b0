-- ===== src/Exec.antt =====
-- Methods that change their objects and may raise. What was written before a raise stays written,
-- so the state comes back beside the exception too.
use se_1_rune_agent.Base.{
  ℕ, String, ◌≡◌, refl, Bool, true, false, Option, none, some, if◌then◌else◌,
}

-- The exceptions of the modelled code. An HTTPException keeps its status code and the message of
-- its detail.
pub data Exception : Type 0 where
  validation_error type_error : Exception
  key_error : String → Exception
  http_exception : (status_code : ℕ) (message : String) → Exception
  policy_error : (message : String) → Exception
  provider_error : (message : String) → Exception
  runtime_error : (message : String) → Exception
  registry_error : (message : String) → Exception

pub data Result {ℓ} (A : Type ℓ) : Type ℓ where
  ok : A → Result A
  raised : Exception → Result A

abbrev pub Exec {ℓ} : Type ℓ → Type ℓ → Type ℓ
Exec S A = S → Result A × S

module _ {ℓ} {S A : Type ℓ} where
  abbrev pub pure : A → Exec S A
  pure a s = (ok a, s)

  abbrev pub raise : Exception → Exec S A
  raise e s = (raised e, s)

  -- d[k]: a missing key raises.
  abbrev pub require : Exception → Option A → Exec S A
  require e none s = (raised e, s)
  require e (some a) s = (ok a, s)

module _ {ℓ} {S : Type ℓ} where
  abbrev pub get_state : Exec S S
  get_state s = (ok s, s)

abbrev pub modify : {S : Type 0} → (S → S) → Exec S (Unit {0})
modify f s = (ok tt, f s)

-- if test: raise e
abbrev pub raise_if : {S : Type 0} → Bool → Exception → Exec S (Unit {0})
raise_if true e s = (raised e, s)
raise_if false e s = (ok tt, s)

module _ {ℓ} {S A B : Type ℓ} where
  abbrev pub continue : Result A → (A → Exec S B) → Exec S B
  continue (ok a) f s = f a s
  continue (raised e) f s = (raised e, s)

  infixl 10 ◌>>=◌ ◌>>◌
  abbrev pub ◌>>=◌ : Exec S A → (A → Exec S B) → Exec S B
  ◌>>=◌ m f s = let (r, s') = m s in continue r f s'

  abbrev pub ◌>>◌ : Exec S A → Exec S B → Exec S B
  m >> n = m >>= λ _. n

-- A method of a part of the state, run on the whole.
abbrev pub zoom : {S T A : Type 0} → (S → T) → (T → S → S) → Exec T A → Exec S A
zoom view update m s = let (r, t) = m (view s) in (r, update t s)

-- The state that is left, whether the method returned or raised, meets `P`.
abbrev pub Leaves : {S A : Type 0} → (S → Type 0) → Result A × S → Type 0
Leaves P p = P p.1

-- Case rules: what holds after each outcome of the first step holds after the block.
module _ {S A B : Type 0} where
  pub continue_ind :
      (Q : Result B × S → Type 0) (r : Result A) (f : A → Exec S B) (s : S)
      → ((a : A) → r ≡ ok a → Q (f a s))
      → ((e : Exception) → r ≡ raised e → Q (raised e, s))
      → Q (continue r f s)
  continue_ind Q (ok a) f s good bad = good a refl
  continue_ind Q (raised e) f s good bad = bad e refl

  pub require_ind :
      (Q : Result B × S → Type 0) (x : Exception) (o : Option A) (f : A → Exec S B) (s : S)
      → ((a : A) → o ≡ some a → Q (f a s))
      → (o ≡ none → Q (raised x, s))
      → Q ((require x o >>= f) s)
  require_ind Q x none f s good bad = bad refl
  require_ind Q x (some a) f s good bad = good a refl

-- A block that returned: its first step returned, and then the rest did.
pub bind-eq-ok :
    {S A B : Type 0} (m : Exec S A) (f : A → Exec S B) (s t : S) (b : B)
    → (m >>= f) s ≡ (ok b, t)
    → (a : A) × (u : S) × (m s ≡ (ok a, u)) × (f a u ≡ (ok b, t))
bind-eq-ok {S} {A} {B} m f s t b = first (m s)
  where
    first :
        (p : Result A × S)
        → continue p.0 f p.1 ≡ (ok b, t)
        → (a : A) × (u : S) × (p ≡ (ok a, u)) × (f a u ≡ (ok b, t))
    first (ok a, u) h = (a, u, refl, h)
    first (raised e, u) h = cc

pub if_ind {ℓ} :
    {A : Type ℓ} (Q : A → Type 0) (b : Bool) {x y : A}
    → (b ≡ true → Q x)
    → (b ≡ false → Q y)
    → Q (if b then x else y)
if_ind Q true h k = h refl
if_ind Q false h k = k refl
