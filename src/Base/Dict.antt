-- ===== src/Base/Dict.antt =====
-- Python's `dict` with text keys, in insertion order.
use Prim.Native.Nat.{◌+◌}
use Prim.Native.String.{String}
use mathlib.Core.Path.{◌≡◌, refl, sym, subst, ap, ◌∙◌}
use mathlib.Core.Logic.{inl, inr}
use mathlib.Core.Bool.{Bool, true, false}
use mathlib.Core.Option.{Option, none, some, some-injective}
use mathlib.Core.List.{List, [], ◌∷◌, ◌++◌}
use native.Mathlib.Omega.{arith}
use text.Mathlib.Text.{◌==◌}
use text.Mathlib.TextEquality.{eq_iff}
use text.Mathlib.TextPositions.{eq_refl}
use se_1_rune_agent.Base.Tests.{if◌then◌else◌, is_some, Bool-cases}
use se_1_rune_agent.Base.Lists.{length, elem, All}

abbrev pub Dict {ℓ} : Type ℓ → Type ℓ
Dict V = List (String × V)

module _ {ℓ} {V : Type ℓ} where
  abbrev pub empty : Dict V
  empty = []

  -- d.get(k)
  unfoldable pub get : Dict V → String → Option V
  get [] k = none
  get ((j, v) ∷ d) k = if j == k then some v else get d k

  -- d[k] = v: a known key keeps its place, a new one goes last.
  unfoldable pub put : Dict V → String → V → Dict V
  put [] k v = (k, v) ∷ []
  put ((j, w) ∷ d) k v = if j == k then (j, v) ∷ d else (j, w) ∷ put d k v

  -- d.pop(k, None)
  unfoldable pub remove : Dict V → String → Dict V
  remove [] k = []
  remove ((j, w) ∷ d) k = let rest = remove d k in if j == k then rest else (j, w) ∷ rest

  abbrev pub keys : Dict V → List String
  keys [] = []
  keys ((j, w) ∷ d) = j ∷ keys d

  abbrev pub values : Dict V → List V
  values [] = []
  values ((j, w) ∷ d) = w ∷ values d

  -- k in d
  abbrev pub has_key : Dict V → String → Bool
  has_key d k = is_some (get d k)

  pub get-put :
      (d : Dict V) (k j : String) (v : V) → get (put d k v) j ≡ (if k == j then some v else get d j)
  unfolding get put
  get-put [] k j v = refl
  get-put ((i, w) ∷ d) k j v = ground (arith, eq_iff k j, eq_iff i k, eq_iff i j, get-put d k j v)

  pub get-put_self : (d : Dict V) (k : String) (v : V) → get (put d k v) k ≡ some v
  get-put_self d k v = simp (get-put, eq_refl)

  pub get-put_ne :
      (d : Dict V) (k j : String) (v : V) → (k == j) ≡ false → get (put d k v) j ≡ get d j
  get-put_ne d k j v h = get-put d k j v ∙ ap (λ b. if b then some v else get d j) h

  pub get-remove :
      (d : Dict V) (k j : String) → get (remove d k) j ≡ (if k == j then none else get d j)
  unfolding get remove
  get-remove [] k j = ground arith
  get-remove ((i, w) ∷ d) k j = ground (arith, eq_iff k j, eq_iff i k, eq_iff i j, get-remove d k j)

  pub length-put :
      (d : Dict V) (k : String) (v : V)
      → length (put d k v) ≡ (if has_key d k then length d else length d + 1)
  unfolding get put
  length-put [] k v = refl
  length-put ((i, w) ∷ d) k v = ground (arith, length-put d k v)

-- Every entry meets `P`.
pub All-put {ℓ κ} :
    {V : Type ℓ} (P : String × V → Type κ) (d : Dict V) (k : String) (v : V)
    → P (k, v)
    → All P d
    → All P (put d k v)
unfolding put
All-put P [] k v new h = (new, tt)
All-put P ((j, w) ∷ d) k v new h = elim (Bool-cases (j == k)) [
  | inl same ↦ rw same (subst (λ i. P (i, v)) (sym ((eq_iff j k).0 same)) new, h.1)
  | inr other ↦ rw other (h.0, All-put P d k v new h.1)
]

-- Every value that a key finds meets `P`.
module _ {ℓ κ} {V : Type ℓ} (P : V → Type κ) where
  abbrev pub Holds : Dict V → Type (ℓ ⊔ κ)
  Holds d = (k : String) (v : V) → get d k ≡ some v → P v

  found :
      (b : Bool) (v w : V) (o : Option V)
      → P v
      → (o ≡ some w → P w)
      → (if b then some v else o) ≡ some w
      → P w
  found true v w o pv po e = subst P (some-injective v w e) pv
  found false v w o pv po e = po e

  pub put-Holds : (d : Dict V) (k : String) (v : V) → P v → Holds d → Holds (put d k v)
  put-Holds d k v pv h j w e = found (k == j) v w (get d j) pv (h j w) (rw get-put at e)

-- Each entry stands under its own key.
module _ {ℓ} {V : Type ℓ} (key : V → String) where
  abbrev pub Keyed : Dict V → Type ℓ
  Keyed d = (k : String) (v : V) → get d k ≡ some v → key v ≡ k

  at_own_key :
      (k j : String) (v w : V) (o : Option V)
      → key v ≡ k
      → (o ≡ some w → key w ≡ j)
      → (if k == j then some v else o) ≡ some w
      → key w ≡ j
  at_own_key k j v w o own old e = ground (arith, eq_iff k j)

  pub put-Keyed : (d : Dict V) (v : V) → Keyed d → Keyed (put d (key v) v)
  put-Keyed d v h j w e = at_own_key (key v) j v w (get d j) refl (h j w) (rw get-put at e)

-- {key(x): x for x in xs}
module _ {ℓ} {V : Type ℓ} (key : V → String) where
  unfoldable pub index_into : Dict V → List V → Dict V
  index_into d [] = d
  index_into d (x ∷ xs) = index_into (put d (key x) x) xs

  abbrev pub index : List V → Dict V
  index = index_into []

pub index_into-Keyed :
    {V : Type 0} (key : V → String) (d : Dict V) (xs : List V)
    → Keyed key d
    → Keyed key (index_into key d xs)
unfolding index_into
index_into-Keyed key d [] h = h
index_into-Keyed key d (x ∷ xs) h = index_into-Keyed key (put d (key x) x) xs (put-Keyed key d x h)

pub empty-Keyed : {V : Type 0} (key : V → String) → Keyed key []
unfolding get
empty-Keyed key k v e = cc

-- dict.fromkeys(xs) read as a list: the first occurrence of each text, in order.
unfoldable pub dedupe_into : List String → List String → List String
dedupe_into seen [] = seen
dedupe_into seen (x ∷ xs) = dedupe_into (if elem x seen then seen else seen ++ x ∷ []) xs

abbrev pub dedupe : List String → List String
dedupe = dedupe_into []

pub ruleset dict_laws = (get-put, get-remove, eq_refl)
