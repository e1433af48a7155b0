-- ===== src/Debug/Diff/Exact.antt =====
-- The three lists of a diff, by the ids in them.
use se_1_rune_agent.Base.{
  String, Bool, false, not, ◌&&◌, ◌||◌, Option, none, some, List, [], ◌∷◌, ◌==◌, ◌≡◌, ◌↔◌, refl,
  sym, ◌∙◌, arith, select, elem, is_some, eq_iff,
}
use se_1_rune_agent.Base.Dict.{Dict, get, has_key, keys}
use se_1_rune_agent.Base.Text.{text_leb}
use se_1_rune_agent.Base.Sort.{sort_by, any-sort_by}
use se_1_rune_agent.Debug.Diff.{Objects, ObjectDiff, differ, diff_objects}

elem-select :
    (p : String → Bool) (k : String) (xs : List String) → elem k (select p xs) ≡ (elem k xs && p k)
elem-select p k [] = refl
elem-select p k (x ∷ xs) = ground (arith, elem-select p k xs, eq_iff x k)

elem-keys {ℓ} : {V : Type ℓ} (d : Dict V) (k : String) → elem k (keys d) ≡ has_key d k
unfolding get
elem-keys [] k = refl
elem-keys ((j, v) ∷ d) k = ground (arith, elem-keys d k)

elem-sorted :
    (p : String → Bool) (k : String) (xs : List String)
    → elem k (sort_by text_leb (select p xs)) ≡ (elem k xs && p k)
elem-sorted p k xs = any-sort_by text_leb (λ x. x == k) (select p xs) ∙ elem-select p k xs

module _ (objects : Objects) where
  open objects use {Json, same, same_iff}

  abbrev pub listed : String → ObjectDiff → Bool
  listed k d = elem k d.added || elem k d.removed || elem k d.changed

  differ-get :
      (x y : Option Json)
      → ((is_some y && not (is_some x))
          || (is_some x && not (is_some y))
          || (is_some x && (is_some y && differ objects x y)))
        ≡ false
      → x ≡ y
  differ-get none none h = refl
  differ-get none (some y) h = cc
  differ-get (some x) none h = cc
  differ-get (some x) (some y) h = ground (arith, same_iff x y)

  same-differ :
      (x : Option Json)
      → ((is_some x && not (is_some x))
          || (is_some x && not (is_some x))
          || (is_some x && (is_some x && differ objects x x)))
        ≡ false
  same-differ none = refl
  same-differ (some x) = ground (arith, same_iff x x)

  listed-eq :
      (before after : Dict Json) (k : String)
      → listed k (diff_objects objects before after) ≡ (
          (has_key after k && not (has_key before k))
          || (has_key before k && not (has_key after k))
          || (has_key before k && (has_key after k && differ objects (get before k) (get after k))))
  unfolding diff_objects
  listed-eq before after k =
      rw
        (
          elem-sorted (λ j. not (has_key before j)) k (keys after),
          elem-sorted (λ j. not (has_key after j)) k (keys before),
          elem-sorted (λ j. has_key after j && differ objects (get before j) (get after j)) k
              (keys before),
          elem-keys before k,
          elem-keys after k,
        )
        refl

  -- An id stands in none of the three lists exactly if both runs hold the same under it, an equal
  -- object or nothing.
  pub diff_objects-nothing :
      (before after : Dict Json) (k : String)
      → (listed k (diff_objects objects before after) ≡ false) ↔ (get before k ≡ get after k)
  diff_objects-nothing before after k = (
    λ h. differ-get (get before k) (get after k) (sym (listed-eq before after k) ∙ h),
    λ e. listed-eq before after k ∙ rw e (same-differ (get after k)),
  )

  -- An added id is one that only the later run has, a removed id one that only the earlier run has.
  pub diff_objects-added_removed :
      (before after : Dict Json) (k : String)
      → (elem k (diff_objects objects before after).added
          ≡ (has_key after k && not (has_key before k)))
        × (elem k (diff_objects objects before after).removed
            ≡ (has_key before k && not (has_key after k)))
  unfolding diff_objects
  diff_objects-added_removed before after k = (
    elem-sorted (λ j. not (has_key before j)) k (keys after) ∙ rw (elem-keys after k) refl,
    elem-sorted (λ j. not (has_key after j)) k (keys before) ∙ rw (elem-keys before k) refl,
  )
