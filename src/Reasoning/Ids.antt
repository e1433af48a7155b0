-- ===== src/Reasoning/Ids.antt =====
-- Node ids and back.
use Prim.Native.Char.{Char, code}
use Prim.Native.String.{String, ◌++◌}
use text.Mathlib.TextEquality.{Char-path}
use text.Mathlib.TextLemmas.{nil-append, cons-append, append-nil}
use se_1_rune_agent.Base.{
  ℕ, Bool, true, false, not, ◌&&◌, some, ◌≡◌, refl, ap, ◌∙◌, arith, eqb, Bool-cases, inl, inr,
  if◌then◌else◌,
}
use se_1_rune_agent.Base.Text.{concat, replace, underscore}
use se_1_rune_agent.Ontology.{OntologyNode}
use se_1_rune_agent.Reasoning.{after_prefix, dash, id_prefix, node_id, external_id_from_node}

-- No character of the text has the code.
abbrev pub lacks : ℕ → String → Bool
lacks n String.[] = true
lacks n (String.◌∷◌ c s) = not (eqb (code c) n) && lacks n s

after_prefix-append : (p s : String) → after_prefix p (p ++ s) ≡ some s
unfolding after_prefix
after_prefix-append String.[] s = rw (nil-append s) refl
after_prefix-append (String.◌∷◌ c p) s =
    rw (cons-append c p s) (ground (arith, after_prefix-append p s))

there_and_back :
    (c : Char)
    → eqb (code c) b'_' ≡ false
    → (if eqb (code (if eqb (code c) b'-' then underscore else c)) b'_'
        then dash
        else if eqb (code c) b'-'
        then underscore
        else c)
      ≡ c
there_and_back c h = elim (Bool-cases (eqb (code c) b'-')) [
  | inl is_dash ↦ rw is_dash (Char-path dash c (ground arith))
  | inr other ↦ rw (other, h) refl
]

replace-replace :
    (s : String) → lacks b'_' s ≡ true → replace b'_' dash (replace b'-' underscore s) ≡ s
unfolding replace
replace-replace String.[] h = refl
replace-replace (String.◌∷◌ c s) h =
    rw (there_and_back c (ground arith)) (ap (String.◌∷◌ c) (replace-replace s (ground arith)))

-- The external id is read back from the id of its node, if it has no underscore.
pub external_id-node_id :
    (node : OntologyNode) (external_id : String)
    → node.node_id ≡ node_id node.project_key external_id
    → lacks b'_' external_id ≡ true
    → external_id_from_node node ≡ external_id
unfolding external_id_from_node node_id concat
external_id-node_id node external_id e h =
    let prefix = id_prefix node.project_key in
    let rest = replace b'-' underscore external_id in
    let at : after_prefix prefix node.node_id ≡ some rest =
      ap (after_prefix prefix) (e ∙ ap (λ t. prefix ++ t) (append-nil rest))
      ∙ after_prefix-append prefix rest in
    rw (at, external_id_from_node) (replace-replace external_id h)
