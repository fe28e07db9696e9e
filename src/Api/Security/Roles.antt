-- ===== src/Api/Security/Roles.antt =====
-- The highest role of a list, and exactly who passes a check of a least role.
use allocation_key_simulatio.Base.{
  ℕ, suc, ◌≤◌, ◌≡◌, refl, sym, ap, ◌∙◌, inl, inr, Text, same_text, List, [], ◌∷◌, Option, none,
  some, Bool, true, false, ltb, any, lt→ltb, ltb→lt, leb, ◌||◌, if◌then◌else◌, ok, raised, ◌>>=◌,
  Bool-cases, arith,
}
use allocation_key_simulatio.Shared.Errors.{Error}
use allocation_key_simulatio.Api.Security.{
  Role, member, manager, admin, parse_role, role_name, rank, Best, better, resolve_from,
  resolve_highest_role, OrgBlock, OrgToken, parse_user_orgs, add_token, role_in, context_of,
  name_of, present, require_authenticated, require_community, check_rank, require_min_role,
}

-- A role of at least this rank is named.
unfoldable pub names_rank : ℕ → List Text → Bool
names_rank n roles =
    any (λ r. elim (parse_role r) [ none ↦ false | some role ↦ leb n (rank role) ]) roles

-- A resolved role of at least this rank.
abbrev pub has_rank : ℕ → Option Role → Bool
has_rank n none = false
has_rank n (some role) = leb n (rank role)

abbrev IsRanked : Best → Type 0
IsRanked b = elim b.best [ none ↦ b.best_rank ≡ 0 | some role ↦ b.best_rank ≡ suc (rank role) ]

ltb-false : (a b : ℕ) → ltb a b ≡ false → b ≤ a
ltb-false a b h = ground arith

better-has_rank :
    (n : ℕ) (o best : Option Role) (best_rank : ℕ)
    → IsRanked (record { best = best; best_rank = best_rank })
    → (has_rank n (better o (record { best = best; best_rank = best_rank })).best
        ≡ (has_rank n best || has_rank n o))
      × IsRanked (better o (record { best = best; best_rank = best_rank }))
better-has_rank n none none k h = (refl, h)
better-has_rank n none (some r) k h = (ground arith, h)
better-has_rank n (some q) none k h = rw (lt→ltb k (suc (rank q)) (omega (arith, h))) (refl, refl)
better-has_rank n (some q) (some r) k h = elim (Bool-cases (ltb k (suc (rank q)))) [
  | inl t ↦ rw t (let l = ltb→lt k (suc (rank q)) t in ground (arith, h, l), refl)
  | inr f ↦ rw f (let l = ltb-false k (suc (rank q)) f in ground (arith, h, l), h)
]

or-unit : (b : Bool) → (b || false) ≡ b
or-unit true = refl
or-unit false = refl

or_assoc : (a b c : Bool) → ((a || b) || c) ≡ (a || (b || c))
or_assoc true b c = refl
or_assoc false b c = refl

resolve-has_rank :
    (n : ℕ) (roles : List Text) (b : Best)
    → IsRanked b
    → has_rank n (resolve_from b roles).best ≡ (has_rank n b.best || names_rank n roles)
unfolding resolve_from names_rank
resolve-has_rank n [] b h = sym (or-unit (has_rank n b.best))
resolve-has_rank n (r ∷ roles) b h =
    let one = better-has_rank n (parse_role r) b.best b.best_rank h in
    resolve-has_rank n roles (better (parse_role r) b) one.1
    ∙ ap (λ (t : Bool). t || names_rank n roles) one.0
    ∙ or_assoc (has_rank n b.best) (has_rank n (parse_role r)) (names_rank n roles)

-- The resolved role is the highest that the list names: it has a rank exactly when some named role
-- has at least that rank.
resolve_highest_role-has_rank :
    (n : ℕ) (roles : List Text) → has_rank n (resolve_highest_role roles) ≡ names_rank n roles
unfolding resolve_highest_role
resolve_highest_role-has_rank n roles = resolve-has_rank n roles _ refl

-- What the header grants: the roles of the first organisation block of the community that names a
-- known role decide.
unfoldable pub grants : ℕ → Text → List OrgBlock → Bool
unfolding names_rank
grants n community [] = false
grants n community (b ∷ blocks) =
    let rest = grants n community blocks in
    if same_text b.org_id community
    then (if names_rank 1 b.role_list then names_rank n b.role_list else rest)
    else rest

known : (r : Role) → leb 1 (rank r) ≡ true
known member = refl
known manager = refl
known admin = refl

added :
    (n : ℕ) (community : Text) (b : OrgBlock) (role : Option Role) (tokens : List OrgToken)
    → has_rank n (role_in community (add_token b role tokens)) ≡ (
        if same_text b.org_id community
        then (if has_rank 1 role then has_rank n role else has_rank n (role_in community tokens))
        else has_rank n (role_in community tokens))
unfolding role_in
added n community b none tokens = elim (Bool-cases (same_text b.org_id community)) [
  | inl q ↦ rw q refl
  | inr q ↦ rw q refl
]
added n community b (some role) tokens = elim (Bool-cases (same_text b.org_id community)) [
  | inl q ↦ rw (q, known role) refl
  | inr q ↦ rw q refl
]

role_in-grants :
    (n : ℕ) (community : Text) (blocks : List OrgBlock)
    → has_rank n (role_in community (parse_user_orgs blocks)) ≡ grants n community blocks
unfolding role_in parse_user_orgs grants
role_in-grants n community [] = refl
role_in-grants n community (b ∷ blocks) =
    let roles = b.role_list in
    rw
      (
        sym (resolve_highest_role-has_rank 1 roles),
        sym (resolve_highest_role-has_rank n roles),
        sym (role_in-grants n community blocks),
      )
      (added n community b (resolve_highest_role roles) (parse_user_orgs blocks))

parse-role_name : (r : Role) → parse_role (role_name r) ≡ some r
unfolding parse_role role_name same_text
parse-role_name member = refl
parse-role_name manager = refl
parse-role_name admin = refl

passes :
    (min_role : Role) (user : Text) (role : Option Role)
    → (present Error.forbidden (name_of role) >>= λ text.
        check_rank min_role user (parse_role text))
      ≡ (if has_rank (rank min_role) role
          then ok user
          else raised (record { error = Error.forbidden; status_code = 400 }))
unfolding check_rank role_name parse_role same_text
passes min_role user none = refl
passes member user (some member) = refl
passes member user (some manager) = refl
passes member user (some admin) = refl
passes manager user (some member) = refl
passes manager user (some manager) = refl
passes manager user (some admin) = refl
passes admin user (some member) = refl
passes admin user (some manager) = refl
passes admin user (some admin) = refl

-- A request with a user and a community passes the check of a least role exactly when the gateway's
-- header grants that rank in the active community: among the roles of the first block of that
-- community that names a known role, one has at least the rank. Otherwise it is FORBIDDEN, also
-- where another community grants the role.
pub require_min_role-grants :
    (min_role : Role) (u c : ℕ) (user community : Text) (blocks : List OrgBlock)
    → require_min_role min_role (
        context_of (record {
          x_user_id = some (u ∷ user);
          x_community_id = some (c ∷ community);
          x_user_orgs = some blocks;
        }))
      ≡ (if grants (rank min_role) (c ∷ community) blocks
          then ok (u ∷ user)
          else raised (record { error = Error.forbidden; status_code = 400 }))
unfolding require_min_role require_community require_authenticated context_of
require_min_role-grants min_role u c user community blocks =
    rw (sym (role_in-grants (rank min_role) (c ∷ community) blocks))
      (passes min_role (u ∷ user) (role_in (c ∷ community) (parse_user_orgs blocks)))
