-- ===== src/Debug/Diff/Witnesses.antt =====
-- Two runs whose objects are texts.
use se_1_rune_agent.Base.{String, false, [], ◌∷◌, ◌==◌, ◌≡◌, ◌↔◌, refl, eq_iff}
use se_1_rune_agent.Base.Dict.{Dict, get}
use se_1_rune_agent.Base.Sort.{sort_by}
use se_1_rune_agent.Base.Text.{text_leb}
use se_1_rune_agent.Debug.Diff.{Objects, diff_objects}
use se_1_rune_agent.Debug.Diff.Exact.{listed, diff_objects-nothing}

abbrev texts : Objects
texts = record { Json = String; same = λ x y. x == y; same_iff = eq_iff }

abbrev before : Dict String
before = ("req_1", "old") ∷ ("req_2", "same") ∷ ("req_3", "gone") ∷ []

abbrev after : Dict String
after = ("req_4", "new") ∷ ("req_2", "same") ∷ ("req_1", "changed") ∷ []

sample_diff :
    diff_objects texts before after
    ≡ record { added = "req_4" ∷ []; removed = "req_3" ∷ []; changed = "req_1" ∷ [] }
unfolding diff_objects get text_leb sort_by
sample_diff = refl

diff_objects-nothing_example :
    (listed texts "req_2" (diff_objects texts before after) ≡ false)
    ↔ (get before "req_2" ≡ get after "req_2")
diff_objects-nothing_example = diff_objects-nothing texts before after "req_2"
