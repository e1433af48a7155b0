-- ===== src/Api/Security/Roles.antt =====
-- Which role a caller gets, and what an unknown one leads to.
use native.Mathlib.Nat.{le_trans}
use se_1_rune_agent.Base.{
  ◌≤◌, String, true, Option, none, some, List, [], ◌∷◌, ◌≡◌, ◌≢◌, ◌⊎◌, refl, sym, subst, arith,
  eq_refl, ltb, elem, is_some, if◌then◌else◌, eq_false_of_ne, Bool-cases, inl, inr,
}
use se_1_rune_agent.Base.Dict.{Dict}
use se_1_rune_agent.Exec.{ok, raised, key_error, http_exception}
use se_1_rune_agent.Api.Security.{
  Headers, Settings, role_order, role_rank, max_role, mapped_roles, parse_header_values,
  trusted_role_from_headers, current_user, require_role, bind,
}

-- Every role of a list is at most of the rank of `best`.
abbrev pub Tops : String → List String → Type 0
Tops best [] = Unit
Tops best (r ∷ rs) = (role_rank r ≤ role_rank best) × Tops best rs

Tops-mono : (a b : String) (rs : List String) → role_rank a ≤ role_rank b → Tops a rs → Tops b rs
Tops-mono a b [] h t = tt
Tops-mono a b (r ∷ rs) h t = (omega arith, Tops-mono a b rs h t.1)

-- The candidate after one more role.
abbrev better : String → String → String
better best r = if ltb (role_rank best) (role_rank r) then r else best

better-ge :
    (best r : String)
    → (role_rank best ≤ role_rank (better best r)) × (role_rank r ≤ role_rank (better best r))
better-ge best r = elim (Bool-cases (ltb (role_rank best) (role_rank r))) [
  | inl up ↦ rw up (ground arith, ground arith)
  | inr same ↦ rw same (ground arith, ground arith)
]

better-or : (best r : String) → (better best r ≡ r) ⊎ (better best r ≡ best)
better-or best r = elim (Bool-cases (ltb (role_rank best) (role_rank r))) [
  | inl up ↦ inl (rw up)
  | inr same ↦ inr (rw same)
]

max_role-cons :
    (best r : String) (rs : List String) → max_role best (r ∷ rs) ≡ max_role (better best r) rs
unfolding max_role
max_role-cons best r rs = refl

max_role-ge : (best : String) (rs : List String) → role_rank best ≤ role_rank (max_role best rs)
unfolding max_role
max_role-ge best [] = omega arith
max_role-ge best (r ∷ rs) = omega (arith, (better-ge best r).0, max_role-ge (better best r) rs)

max_role-Tops : (best : String) (rs : List String) → Tops (max_role best rs) rs
max_role-Tops best [] = tt
max_role-Tops best (r ∷ rs) =
    subst (λ m. Tops m (r ∷ rs)) (sym (max_role-cons best r rs))
      (
        le_trans (better-ge best r).1 (max_role-ge (better best r) rs),
        max_role-Tops (better best r) rs,
      )

elem-better :
    (m b best r : String) (rs : List String)
    → (b ≡ r) ⊎ (b ≡ best)
    → elem m (b ∷ rs) ≡ true
    → elem m (best ∷ r ∷ rs) ≡ true
elem-better m b best r rs which h = ground arith

max_role-elem : (best : String) (rs : List String) → elem (max_role best rs) (best ∷ rs) ≡ true
max_role-elem best [] = unfold max_role in rw eq_refl
max_role-elem best (r ∷ rs) =
    subst (λ m. elem m (best ∷ r ∷ rs) ≡ true) (sym (max_role-cons best r rs))
      (elem-better _ (better best r) best r rs (better-or best r)
        (max_role-elem (better best r) rs))

-- A caller whose groups map to roles gets, whatever role it asks for, one of these roles of the
-- highest rank among them, or is refused as unknown if that role is not in the order of roles.
pub trusted_role_highest :
    (role_header group_header : Option String) (roles : Dict String) (default_role r : String)
    (rs : List String)
    → mapped_roles roles (parse_header_values group_header) ≡ r ∷ rs
    → let best = max_role r rs in
      (trusted_role_from_headers role_header group_header roles default_role ≡ (
        if is_some (role_order best) then ok best else raised (http_exception 403 "unknown role")))
      × (elem best (r ∷ rs) ≡ true)
      × Tops best (r ∷ rs)
unfolding trusted_role_from_headers
trusted_role_highest role_header group_header roles default_role r rs e =
    (rw e, max_role-elem r rs, (max_role-ge r rs, max_role-Tops r rs))

-- In the mode local no role is checked on entry: an unknown role makes every check of a role end
-- in a KeyError, not in a refusal.
pub local_unknown_role :
    (settings : Settings) (h : Headers) (role minimum_role : String)
    → settings.auth_mode ≡ "local"
    → h.role ≡ some role
    → role ≢ ""
    → role_order role ≡ none
    → require_role settings h minimum_role ≡ raised (key_error role)
unfolding require_role current_user
local_unknown_role settings h role minimum_role local asked named unknown =
    rw (local, asked) (rw (eq_false_of_ne role "" named) (rw (unknown, bind)))
