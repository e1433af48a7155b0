-- ===== src/Api/Security.antt =====
-- src/req_tracker/api/security.py: who calls, with which role, on which projects. A request is its
-- headers, and the settings are the fields that this module reads.
pub mod Access
pub mod Roles
mod Witnesses
use se_1_rune_agent.Base.{
  ℕ, suc, String, Bool, true, false, not, ◌&&◌, ◌||◌, Option, none, some, List, [], ◌∷◌, ◌==◌, leb,
  ltb, or_text, truthy, elem, select, if◌then◌else◌, is_some,
}
use se_1_rune_agent.Base.Dict.{Dict, get, has_key}
use se_1_rune_agent.Base.Text.{concat, strip, split, is_ascii}
use se_1_rune_agent.Exec.{Result, ok, raised, Exception, key_error, type_error, http_exception}

pub record Headers : Type 0 where
  pub api_key : Option String
  pub user : Option String
  pub role : Option String
  pub projects : Option String
  pub trusted_secret : Option String
  pub groups : Option String

pub record Settings : Type 0 where
  pub auth_mode : String
  pub api_key : String
  pub trusted_proxy_secret : String
  pub trusted_group_role_map : Dict String
  pub trusted_default_role : String

pub record UserContext : Type 0 where
  pub user_id : String
  pub role : String
  pub project_keys : List String

-- `ROLE_ORDER.get(role)`
unfoldable pub role_order : String → Option ℕ
role_order role =
    if role == "viewer"
    then some 10
    else if role == "developer"
    then some 20
    else if role == "operator"
    then some 30
    else if role == "admin"
    then some 40
    else none

-- `ROLE_ORDER.get(role, -1)`, raised by one.
abbrev pub role_rank : String → ℕ
role_rank role = elim (role_order role) [ none ↦ 0 | some n ↦ suc n ]

strip_all : List String → List String
strip_all [] = []
strip_all (w ∷ ws) = let rest = strip_all ws in if strip w == "" then rest else strip w ∷ rest

unfoldable pub parse_header_values : Option String → List String
unfolding strip_all
parse_header_values none = []
parse_header_values (some header) = if header == "" then [] else strip_all (split b',' header)

abbrev pub or_all : List String → List String
or_all [] = "*" ∷ []
or_all (k ∷ ks) = k ∷ ks

unfoldable pub parse_project_keys : Option String → List String
unfolding parse_header_values
parse_project_keys header = or_all (parse_header_values header)

-- `[group_role_map[g] for g in groups if g in group_role_map]`
unfoldable pub mapped_roles : Dict String → List String → List String
mapped_roles roles [] = []
mapped_roles roles (g ∷ gs) = elim (get roles g) [
  | none ↦ mapped_roles roles gs
  | some r ↦ r ∷ mapped_roles roles gs
]

-- `max(roles, key=…)`: the first role of the highest rank, from a first candidate on.
unfoldable pub max_role : String → List String → String
max_role best [] = best
max_role best (r ∷ rs) = max_role (if ltb (role_rank best) (role_rank r) then r else best) rs

abbrev known_or_403 : String → Result String
known_or_403 role =
    if is_some (role_order role) then ok role else raised (http_exception 403 "unknown role")

abbrev choose_role : List String → Option String → String → String
choose_role [] role_header default_role = or_text role_header default_role
choose_role (r ∷ rs) role_header default_role = max_role r rs

unfoldable pub trusted_role_from_headers :
    Option String → Option String → Dict String → String → Result String
trusted_role_from_headers role_header group_header group_role_map default_role = known_or_403 (
    choose_role (mapped_roles group_role_map (parse_header_values group_header)) role_header
      default_role)

-- `compare_digest`, which refuses texts that are not ASCII.
abbrev compare_digest : String → String → Result Bool
compare_digest a b = if is_ascii a && is_ascii b then ok (a == b) else raised type_error

abbrev pub bind {ℓ κ} : {A : Type ℓ} {B : Type κ} → Result A → (A → Result B) → Result B
bind (ok a) f = f a
bind (raised e) f = raised e

abbrev trusted_user : Settings → Headers → Result UserContext
trusted_user settings h =
    if not (truthy h.user)
    then raised (http_exception 401 "trusted proxy user header is required")
    else bind
        (trusted_role_from_headers h.role h.groups settings.trusted_group_role_map
          settings.trusted_default_role)
        λ role. ok (record {
          user_id = or_text h.user "";
          role = role;
          project_keys = parse_project_keys h.projects;
        })

unfoldable pub trusted_proxy_user : Settings → Headers → Result UserContext
trusted_proxy_user settings h =
    let refuse = raised (http_exception 401 "invalid trusted proxy secret") in
    if settings.trusted_proxy_secret == ""
    then raised (http_exception 500 "TRUSTED_PROXY_SECRET is required for AUTH_MODE=trusted_proxy")
    else if not (truthy h.trusted_secret)
    then refuse
    else bind (compare_digest (or_text h.trusted_secret "") settings.trusted_proxy_secret)
        λ same. if same then trusted_user settings h else refuse

abbrev api_key_is : Option String → String → Bool
api_key_is none key = false
api_key_is (some k) key = k == key

unfoldable pub api_key_user : Settings → Headers → Result UserContext
api_key_user settings h =
    if settings.api_key == ""
    then raised (http_exception 500 "API_KEY is required for AUTH_MODE=api_key")
    else if not (api_key_is h.api_key settings.api_key)
    then raised (http_exception 401 "invalid api key")
    else bind (known_or_403 (or_text h.role "viewer")) λ role. ok (record {
      user_id = or_text h.user "api_key_user";
      role = role;
      project_keys = parse_project_keys h.projects;
    })

unfoldable pub current_user : Settings → Headers → Result UserContext
current_user settings h =
    if settings.auth_mode == "local"
    then ok (record {
      user_id = or_text h.user "local";
      role = or_text h.role "admin";
      project_keys = parse_project_keys h.projects;
    })
    else if settings.auth_mode == "trusted_proxy"
    then trusted_proxy_user settings h
    else if not (settings.auth_mode == "api_key")
    then raised (http_exception 500 (concat ("unsupported AUTH_MODE: " ∷ settings.auth_mode ∷ [])))
    else api_key_user settings h

-- `ROLE_ORDER[role]`
abbrev pub order_of : String → Result ℕ
order_of role = elim (role_order role) [ none ↦ raised (key_error role) | some n ↦ ok n ]

unfoldable pub require_role : Settings → Headers → String → Result UserContext
require_role settings h minimum_role = bind (current_user settings h) λ user.
    bind (order_of user.role) λ n.
      bind (order_of minimum_role)
        λ least. if ltb n least then raised (http_exception 403 "insufficient role") else ok user

unfoldable pub require_project : Settings → Headers → Option String → String → Result UserContext
require_project settings h project_key minimum_role =
    bind (require_role settings h minimum_role) λ user. elim project_key [
      | none ↦ ok user
      | some key ↦
          if not (elem "*" user.project_keys) && not (elem key user.project_keys)
          then raised (http_exception 403 "project access denied")
          else ok user
    ]
