-- ===== src/Api/Security/Access.antt =====
-- What a granted request shows of the caller.
use se_1_rune_agent.Base.{
  ℕ, ◌≤◌, String, Bool, true, false, Option, none, some, ◌==◌, ◌≡◌, ◌≢◌, ◌⊎◌, refl, ap, subst, ◌∙◌,
  ne_of_eq_false, arith, eq_iff, ltb, or_text, truthy, elem, is_some, if◌then◌else◌, not, ◌&&◌,
}
use se_1_rune_agent.Exec.{Result, ok, raised, Exception}
use se_1_rune_agent.Api.Security.{
  Headers, Settings, UserContext, role_order, mapped_roles, parse_header_values,
  trusted_role_from_headers, trusted_proxy_user, api_key_user, current_user, bind, api_key_is,
  compare_digest, known_or_403, trusted_user, choose_role, order_of, require_role, require_project,
}

-- What a result holds if it is one.
abbrev pub OnOk {ℓ κ} : {A : Type ℓ} → (A → Type κ) → Result A → Type κ
OnOk P (ok a) = P a
OnOk P (raised e) = Unit

-- The user has at least the rank of the required role.
abbrev pub Outranks : String → UserContext → Type 0
Outranks minimum_role user =
    (n : ℕ) × (least : ℕ) × (role_order user.role ≡ some n)
    × (role_order minimum_role ≡ some least)
    × (least ≤ n)

abbrev pub MayTouch : Option String → UserContext → Type 0
MayTouch none user = Unit
MayTouch (some key) user = (elem "*" user.project_keys ≡ true) ⊎ (elem key user.project_keys ≡ true)

bind-eq-ok :
    {A B : Type 0} (m : Result A) (f : A → Result B) (b : B)
    → bind m f ≡ ok b
    → (a : A) × (m ≡ ok a) × (f a ≡ ok b)
bind-eq-ok (ok a) f b h = (a, refl, h)
bind-eq-ok (raised e) f b h = cc

guard-eq-ok :
    {A : Type 0} (b : Bool) (e : Exception) (m : Result A) (u : A)
    → (if b then raised e else m) ≡ ok u
    → (b ≡ false) × (m ≡ ok u)
guard-eq-ok true e m u h = cc
guard-eq-ok false e m u h = (refl, h)

not-false : (b : Bool) → not b ≡ false → b ≡ true
not-false b h = ground arith

order_of-eq-ok : (role : String) (n : ℕ) → order_of role ≡ ok n → role_order role ≡ some n
order_of-eq-ok role n h = ground arith

enough_rank :
    (n least : ℕ) (user u : UserContext) (e : Exception)
    → (if ltb n least then raised e else ok u) ≡ ok user
    → (least ≤ n) × (u ≡ user)
enough_rank n least user u e h = ground arith

require_role-Outranks :
    (settings : Settings) (h : Headers) (minimum_role : String) (user : UserContext)
    → require_role settings h minimum_role ≡ ok user
    → Outranks minimum_role user
unfolding require_role
require_role-Outranks settings h minimum_role user e =
    let (u, _, e1) = bind-eq-ok (current_user settings h) _ user e in
    let (n, known, e2) = bind-eq-ok (order_of u.role) _ user e1 in
    let (least, named, e3) = bind-eq-ok (order_of minimum_role) _ user e2 in
    let (enough, same) = enough_rank n least user u _ e3 in
    (
      n,
      least,
      order_of-eq-ok user.role n (subst (λ v. order_of v.role ≡ ok n) same known),
      order_of-eq-ok minimum_role least named,
      enough,
    )

project_granted :
    (project_key : Option String) (u user : UserContext) (e : Exception)
    → elim project_key [
      | none ↦ ok u
      | some key ↦
          if not (elem "*" u.project_keys) && not (elem key u.project_keys) then raised e else ok u
    ]
      ≡ ok user
    → (u ≡ user) × MayTouch project_key user
project_granted none u user e h = (ground arith, tt)
project_granted (some key) u user e h = ground arith

-- Whatever the authentication mode and the headers, a user that `require_project` lets through
-- has a known role of at least the rank required, and, if a project is named, holds that project
-- or the wildcard.
pub require_project_grants :
    (settings : Settings) (h : Headers) (project_key : Option String) (minimum_role : String)
    (user : UserContext)
    → require_project settings h project_key minimum_role ≡ ok user
    → Outranks minimum_role user × MayTouch project_key user
unfolding require_project
require_project_grants settings h project_key minimum_role user e =
    let (u, role_ok, e1) = bind-eq-ok (require_role settings h minimum_role) _ user e in
    let (same, may) = project_granted project_key u user _ e1 in
    (
      require_role-Outranks settings h minimum_role user
          (subst (λ v. require_role settings h minimum_role ≡ ok v) same role_ok),
      may,
    )

api_key_is-eq : (o : Option String) (key : String) → api_key_is o key ≡ true → o ≡ some key
api_key_is-eq none key h = cc
api_key_is-eq (some k) key h = ground (arith, eq_iff k key)

truthy-some : (o : Option String) (d : String) → truthy o ≡ true → o ≡ some (or_text o d)
truthy-some none d h = cc
truthy-some (some s) d h = ground arith

truthy-ne : (o : Option String) (d : String) → truthy o ≡ true → or_text o d ≢ ""
truthy-ne none d h = cc
truthy-ne (some s) d h = ground (arith, eq_iff s "")

compare_digest-true :
    (a b : String) {A : Type 0} (x y : Result A) (u : A) (e : Exception)
    → y ≡ raised e
    → bind (compare_digest a b) (λ same. if same then x else y) ≡ ok u
    → (a ≡ b) × (x ≡ ok u)
compare_digest-true a b x y u e never h = ground (arith, eq_iff a b)

known_or_403-eq-ok :
    (role r : String) → known_or_403 role ≡ ok r → (r ≡ role) × (is_some (role_order r) ≡ true)
known_or_403-eq-ok role r h = ground arith

abbrev Named : Settings → Headers → UserContext → Type 0
Named settings h user =
    (h.user ≡ some user.user_id) × (user.user_id ≢ "") × (is_some (role_order user.role) ≡ true)

trusted_user-Named :
    (settings : Settings) (h : Headers) (user : UserContext)
    → trusted_user settings h ≡ ok user
    → Named settings h user
unfolding trusted_role_from_headers
trusted_user-Named settings h user e =
    let role =
      choose_role (mapped_roles settings.trusted_group_role_map (parse_header_values h.groups))
        h.role settings.trusted_default_role in
    ground (arith, known_or_403-eq-ok role user.role, truthy-some h.user "", truthy-ne h.user "")

-- A user in the mode trusted_proxy: the proxy's secret is set and was sent, and the user is named.
pub trusted_proxy_grants :
    (settings : Settings) (h : Headers) (user : UserContext)
    → trusted_proxy_user settings h ≡ ok user
    → (settings.trusted_proxy_secret ≢ "")
      × (h.trusted_secret ≡ some settings.trusted_proxy_secret)
      × (h.user ≡ some user.user_id)
      × (user.user_id ≢ "")
      × (is_some (role_order user.role) ≡ true)
unfolding trusted_proxy_user trusted_role_from_headers
trusted_proxy_grants settings h user e =
    let (secret_set, e1) = guard-eq-ok (settings.trusted_proxy_secret == "") _ _ user e in
    let (sent, e2) = guard-eq-ok (not (truthy h.trusted_secret)) _ _ user e1 in
    let (same, e3) =
      compare_digest-true (or_text h.trusted_secret "") settings.trusted_proxy_secret
        (trusted_user settings h) _ user _ refl e2 in
    let (named, user_ne, known) = trusted_user-Named settings h user e3 in
    (
      ne_of_eq_false settings.trusted_proxy_secret "" secret_set,
      truthy-some h.trusted_secret "" (not-false _ sent) ∙ ap some same,
      named,
      user_ne,
      known,
    )

-- A user in the mode api_key: the key is set and was sent, and the role is a known one.
pub api_key_grants :
    (settings : Settings) (h : Headers) (user : UserContext)
    → api_key_user settings h ≡ ok user
    → (settings.api_key ≢ "")
      × (h.api_key ≡ some settings.api_key)
      × (is_some (role_order user.role) ≡ true)
unfolding api_key_user
api_key_grants settings h user e = ground (
  arith,
  eq_iff settings.api_key "",
  api_key_is-eq h.api_key settings.api_key,
  known_or_403-eq-ok (or_text h.role "viewer") user.role,
)
