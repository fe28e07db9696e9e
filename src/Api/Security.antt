-- ===== src/Api/Security.antt =====
-- Who may do what: the role that the gateway's headers give (core/security/gateway_auth.py,
-- core/middleware/set_auth_context.py) and the checks on it (core/security/dependencies.py).
pub mod Roles
use allocation_key_simulatio.Base.{
  ℕ, suc, Text, codes, same_text, List, [], ◌∷◌, Option, none, some, Bool, true, false, not, ◌&&◌,
  ltb, is_empty, if◌then◌else◌, Result, ok, raised, ◌>>=◌,
}
use allocation_key_simulatio.Shared.Errors.{Error, ErrorException}

pub data Role : Type 0 where
  member manager admin : Role

-- `Role(r)`, `none` where it raises.
unfoldable pub parse_role : Text → Option Role
parse_role text =
    if same_text text (codes "MEMBER")
    then some member
    else if same_text text (codes "MANAGER")
    then some manager
    else if same_text text (codes "ADMIN")
    then some admin
    else none

unfoldable pub role_name : Role → Text
role_name member = codes "MEMBER"
role_name manager = codes "MANAGER"
role_name admin = codes "ADMIN"

-- `ROLE_HIERARCHY`
abbrev pub rank : Role → ℕ
rank member = 1
rank manager = 2
rank admin = 3

pub record Best : Type 0 where
  pub best : Option Role
  pub best_rank : ℕ  -- plus one: it starts at -1

abbrev pub better : Option Role → Best → Best
better none b = b
better (some role) b =
    if ltb b.best_rank (suc (rank role))
    then record { best = some role; best_rank = suc (rank role) }
    else b

unfoldable pub resolve_from : Best → List Text → Best
resolve_from b [] = b
resolve_from b (r ∷ roles) = resolve_from (better (parse_role r) b) roles

-- `_resolve_highest_role`
unfoldable pub resolve_highest_role : List Text → Option Role
unfolding resolve_from
resolve_highest_role roles = (resolve_from (record { best = none; best_rank = 0 }) roles).best

-- One match of the expression for an organisation, its roles split.
pub record OrgBlock : Type 0 where
  pub org_id : Text
  pub org_path : Text
  pub role_list : List Text

pub record OrgToken : Type 0 where
  pub org_id : Text
  pub org_path : Text
  pub role : Role

abbrev pub add_token : OrgBlock → Option Role → List OrgToken → List OrgToken
add_token b none tokens = tokens
add_token b (some role) tokens =
    record { org_id = b.org_id; org_path = b.org_path; role = role } ∷ tokens

-- `parse_user_orgs`, behind the regular expressions.
unfoldable pub parse_user_orgs : List OrgBlock → List OrgToken
parse_user_orgs [] = []
parse_user_orgs (b ∷ blocks) =
    add_token b (resolve_highest_role b.role_list) (parse_user_orgs blocks)

-- The first token of the active community.
unfoldable pub role_in : Text → List OrgToken → Option Role
role_in community [] = none
role_in community (t ∷ tokens) =
    let rest = role_in community tokens in
    if same_text t.org_id community then some t.role else rest

-- The context variables of a request.
pub record Context : Type 0 where
  pub user_id : Option Text
  pub community_id : Option Text
  pub user_role : Option Text

pub record Headers : Type 0 where
  pub x_user_id : Option Text
  pub x_community_id : Option Text
  pub x_user_orgs : Option (List OrgBlock)

abbrev pub name_of : Option Role → Option Text
name_of none = none
name_of (some role) = some (role_name role)

abbrev pub active_role : Option Text → Option (List OrgBlock) → Option Text
active_role none orgs = none
active_role (some []) orgs = none
active_role (some (c ∷ community)) none = none
active_role (some (c ∷ community)) (some blocks) =
    name_of (role_in (c ∷ community) (parse_user_orgs blocks))

-- `GatewayScopeMiddleware.dispatch`
unfoldable pub context_of : Headers → Context
unfolding parse_user_orgs role_in role_name
context_of h = record {
  user_id = h.x_user_id;
  community_id = h.x_community_id;
  user_role = active_role h.x_community_id h.x_user_orgs;
}

-- An empty text counts as none. Without a status of its own an error answers 400.
abbrev pub present : Error → Option Text → Result ErrorException Text
present error none = raised (record { error = error; status_code = 400 })
present error (some []) = raised (record { error = error; status_code = 400 })
present error (some (c ∷ text)) = ok (c ∷ text)

unfoldable pub require_authenticated : Context → Result ErrorException Text
require_authenticated context = present Error.unauthorized context.user_id

unfoldable pub require_community : Context → Result ErrorException Text
unfolding require_authenticated
require_community context = do
  user ← require_authenticated context
  present Error.authorization_missing context.community_id

unfoldable pub check_rank : Role → Text → Option Role → Result ErrorException Text
check_rank min_role user_id none = raised (record { error = Error.forbidden; status_code = 400 })
check_rank min_role user_id (some role) =
    if ltb (rank role) (rank min_role)
    then raised (record { error = Error.forbidden; status_code = 400 })
    else ok user_id

unfoldable pub require_min_role : Role → Context → Result ErrorException Text
unfolding require_authenticated require_community check_rank
require_min_role min_role context = do
  user_id ← require_authenticated context
  community ← require_community context
  role ← present Error.forbidden context.user_role
  check_rank min_role user_id (parse_role role)

-- `_ensure_active_subscription`: the community's subscription row of the feature, by its `is_active`.
unfoldable pub ensure_active_subscription : Context → Option Bool → Result ErrorException (Unit {0})
unfolding require_community
ensure_active_subscription context sub = do
  community ← require_community context
  elim sub [
    | none ↦ raised (record { error = Error.not_subscribed; status_code = 403 })
    | some active ↦
        if active
        then ok tt
        else raised (record { error = Error.not_subscribed; status_code = 403 })
  ]
