-- ===== src/Api/Security/Witnesses.antt =====
-- Requests in each of the modes.
use se_1_rune_agent.Base.{
  String, true, none, some, [], ◌∷◌, ◌≡◌, ◌≢◌, refl, elem, is_some, if◌then◌else◌,
}
use se_1_rune_agent.Base.Dict.{get}
use se_1_rune_agent.Base.Text.{strip, split, is_ascii}
use se_1_rune_agent.Exec.{ok, raised, http_exception}
use se_1_rune_agent.Api.Security.{
  Headers, Settings, UserContext, role_order, mapped_roles, max_role, parse_header_values,
  parse_project_keys, trusted_role_from_headers, trusted_proxy_user, api_key_user, current_user,
  require_role, require_project,
}
use se_1_rune_agent.Api.Security.Access.{
  Outranks, MayTouch, require_project_grants, trusted_proxy_grants,
}
use se_1_rune_agent.Api.Security.Roles.{Tops, trusted_role_highest}

abbrev settings : Settings
settings = record {
  auth_mode = "local";
  api_key = "k";
  trusted_proxy_secret = "s";
  trusted_group_role_map = ("ops", "operator") ∷ ("root", "admin") ∷ [];
  trusted_default_role = "viewer";
}

abbrev headers : Headers
headers = record {
  api_key = some "k";
  user = some "ann";
  role = some "operator";
  projects = none;
  trusted_secret = some "s";
  groups = none;
}

abbrev ann : UserContext
ann = record { user_id = "ann"; role = "operator"; project_keys = "*" ∷ [] }

ann_granted : require_project settings headers (some "SYS") "developer" ≡ ok ann
unfolding require_project require_role current_user role_order parse_project_keys
ann_granted = refl

require_project_grants_example : Outranks "developer" ann × MayTouch (some "SYS") ann
require_project_grants_example =
    require_project_grants settings headers (some "SYS") "developer" ann ann_granted

ann_by_proxy : trusted_proxy_user settings headers ≡ ok ann
unfolding trusted_proxy_user trusted_role_from_headers role_order parse_project_keys
    parse_header_values mapped_roles is_ascii
ann_by_proxy = refl

trusted_proxy_grants_example :
    (settings.trusted_proxy_secret ≢ "")
    × (headers.trusted_secret ≡ some settings.trusted_proxy_secret)
    × (headers.user ≡ some "ann")
    × (ann.user_id ≢ "")
    × (is_some (role_order "operator") ≡ true)
trusted_proxy_grants_example = trusted_proxy_grants settings headers ann ann_by_proxy

ann_by_key : api_key_user settings headers ≡ ok ann
unfolding api_key_user role_order parse_project_keys parse_header_values
ann_by_key = refl

groups_mapped :
    mapped_roles settings.trusted_group_role_map (parse_header_values (some "ops, root"))
    ≡ "operator" ∷ "admin" ∷ []
unfolding mapped_roles parse_header_values split strip get
groups_mapped = refl

trusted_role_highest_example :
    let best = max_role "operator" ("admin" ∷ []) in
    (trusted_role_from_headers none (some "ops, root") settings.trusted_group_role_map "viewer"
      ≡ (if is_some (role_order best) then ok best else raised (http_exception 403 "unknown role")))
    × (elem best ("operator" ∷ "admin" ∷ []) ≡ true)
    × Tops best ("operator" ∷ "admin" ∷ [])
trusted_role_highest_example =
    trusted_role_highest none (some "ops, root") settings.trusted_group_role_map "viewer" "operator"
      ("admin" ∷ []) groups_mapped

abbrev guest : Headers
guest = record headers { role = some "guest" }

guest_unknown : role_order "guest" ≡ none
unfolding role_order
guest_unknown = refl

guest_named : ◌≢◌ {A = String} "guest" ""
guest_named e = cc
