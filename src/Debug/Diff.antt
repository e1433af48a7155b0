-- ===== src/Debug/Diff.antt =====
-- src/req_tracker/debug/diff.py: what two runs differ in.
mod Exact
mod Witnesses
use se_1_rune_agent.Base.{
  ℕ, String, Bool, true, false, not, ◌&&◌, Option, none, some, List, [], ◌∷◌, ◌≡◌, ◌↔◌, select,
  is_some,
}
use se_1_rune_agent.Base.Dict.{Dict, get, has_key, keys}
use se_1_rune_agent.Base.Text.{text_leb}
use se_1_rune_agent.Base.Sort.{sort_by}

pub record ObjectDiff : Type 0 where
  pub added : List String
  pub removed : List String
  pub changed : List String

-- The objects, in their JSON form, and Python's `==` on them.
pub record Objects : Type 1 where
  pub Json : Type 0
  pub same : Json → Json → Bool
  pub same_iff : (x y : Json) → (same x y ≡ true) ↔ (x ≡ y)

module _ (objects : Objects) where
  open objects use {Json, same}

  abbrev pub differ : Option Json → Option Json → Bool
  differ (some x) (some y) = not (same x y)
  differ _ _ = false

  -- `_diff_objects`; the third test reads both objects, and ids in both are in both.
  unfoldable pub diff_objects : Dict Json → Dict Json → ObjectDiff
  diff_objects before after = record {
    added = sort_by text_leb (select (λ k. not (has_key before k)) (keys after));
    removed = sort_by text_leb (select (λ k. not (has_key after k)) (keys before));
    changed =
        sort_by text_leb
          (select (λ k. has_key after k && differ (get before k) (get after k)) (keys before));
  }
