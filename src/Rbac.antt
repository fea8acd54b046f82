-- ===== src/Rbac.antt =====
-- rbac/authorizer.go: users have roles, roles have permissions, and a user may have permissions of
-- their own.
pub mod Laws
pub mod Passes
pub mod Listing
use better_token.Base.{
  ◌≡◌, Bool, true, false, not, ◌&&◌, ◌||◌, Option, none, some, List, [], ◌∷◌, ◌++◌, ite, is_nil,
  is_some, if◌then◌else◌,
}
use better_token.Base.Map
use better_token.Base.Map.{Map, Set, keys}
use better_token.Text.{Text, dec_text, trim_space}
use better_token.Errors.{Error, Result, ok, err, Authority, AuthorityType}
use better_token.Authorizer.{value_matches, dec_type}

pub record Rbac : Type 0 where
  pub user_roles : Map Text (Set Text)
  pub role_permissions : Map Text (Set Text)
  pub direct_permissions : Map Text (Set Text)

-- NewAuthorizer
abbrev pub new_authorizer : Rbac
new_authorizer = record { user_roles = []; role_permissions = []; direct_permissions = [] }

-- m[k]: a missing set reads as an empty one.
abbrev set_of : Option (Set Text) → Set Text
set_of none = []
set_of (some s) = s

abbrev pub members : Map Text (Set Text) → Text → Set Text
members m k = set_of (Map.get dec_text k m)

-- The two map updates that the methods share: adding makes a missing set, and a set that becomes
-- empty is dropped.
unfoldable pub insert_member : Text → Text → Map Text (Set Text) → Map Text (Set Text)
unfolding Map.get Map.put dec_text
insert_member k v m = Map.put dec_text k (Map.put dec_text v tt (members m k)) m

abbrev put_or_drop : Text → Set Text → Map Text (Set Text) → Map Text (Set Text)
put_or_drop k s m = if is_nil s then Map.delete dec_text k m else Map.put dec_text k s m

unfoldable pub remove_member : Text → Text → Map Text (Set Text) → Map Text (Set Text)
unfolding Map.get Map.put Map.delete dec_text
remove_member k v m = elim (Map.get dec_text k m) [
  | none ↦ m
  | some s ↦ put_or_drop k (Map.delete dec_text v s) m
]

abbrev blank : Text → Text → Bool
blank a b = is_nil a || is_nil b

-- AssignRole and RevokeRole
unfoldable pub assign_role : Text → Text → Rbac → Rbac
unfolding trim_space insert_member
assign_role login_id role a =
    let user = trim_space login_id in
    let name = trim_space role in
    if blank user name then a else record a { user_roles = insert_member user name a.user_roles }

unfoldable pub revoke_role : Text → Text → Rbac → Rbac
unfolding trim_space remove_member
revoke_role login_id role a =
    let user = trim_space login_id in
    let name = trim_space role in
    if blank user name then a else record a { user_roles = remove_member user name a.user_roles }

-- GrantPermission and RevokePermission
unfoldable pub grant_permission : Text → Text → Rbac → Rbac
unfolding trim_space insert_member
grant_permission role permission a =
    let name = trim_space role in
    let value = trim_space permission in
    if blank name value
    then a
    else record a { role_permissions = insert_member name value a.role_permissions }

unfoldable pub revoke_permission : Text → Text → Rbac → Rbac
unfolding trim_space remove_member
revoke_permission role permission a =
    let name = trim_space role in
    let value = trim_space permission in
    if blank name value
    then a
    else record a { role_permissions = remove_member name value a.role_permissions }

-- SetDirectPermissions
unfoldable pub collect : List Text → Set Text
unfolding trim_space Map.put dec_text
collect [] = []
collect (permission ∷ rest) =
    let value = trim_space permission in
    let others = collect rest in if is_nil value then others else Map.put dec_text value tt others

unfoldable pub set_direct_permissions : Text → List Text → Rbac → Rbac
unfolding trim_space collect Map.put dec_text
set_direct_permissions login_id permissions a =
    let user = trim_space login_id in
    if is_nil user then a else record a {
      direct_permissions = Map.put dec_text user (collect permissions) a.direct_permissions;
    }

-- permissionSetMatches, over the permissions in some order
unfoldable pub any_value_matches : List Text → Text → Bool
unfolding value_matches
any_value_matches [] requested = false
any_value_matches (candidate ∷ rest) requested =
    value_matches candidate requested || any_value_matches rest requested

-- The loop over the roles of a user.
unfoldable pub any_role_matches : Rbac → List Text → Text → Bool
unfolding any_value_matches Map.get dec_text
any_role_matches a [] requested = false
any_role_matches a (role ∷ rest) requested =
    any_value_matches (keys (members a.role_permissions role)) requested
    || any_role_matches a rest requested

-- HasAuthority
unfoldable pub holds : Rbac → Text → AuthorityType → Text → Bool
unfolding any_role_matches any_value_matches Map.get dec_text
holds a user AuthorityType.role value = is_some (Map.get dec_text value (members a.user_roles user))
holds a user AuthorityType.permission value =
    any_value_matches (keys (members a.direct_permissions user)) value
    || any_role_matches a (keys (members a.user_roles user)) value
holds a user kind value = false

unfoldable pub has_authority : Option Error → Rbac → Text → Authority → Result Bool
unfolding trim_space holds
has_authority (some e) a login_id requested = err e
has_authority none a login_id requested =
    let user = trim_space login_id in
    let value = trim_space requested.value in
    ok (not (blank user value) && holds a user requested.kind value)

-- GetAuthorities: the authorities in the order in which the maps are walked, each once
abbrev pub is_listed : Authority → List Authority → Bool
is_listed a [] = false
is_listed a (b ∷ rest) =
    ite (dec_type a.kind b.kind) (ite (dec_text a.value b.value) true (is_listed a rest))
      (is_listed a rest)

unfoldable pub add_authority : Authority → List Authority → List Authority
unfolding dec_type dec_text
add_authority a result = if is_nil a.value || is_listed a result then result else result ++ (a ∷ [])

abbrev pub to_permission : Text → Authority
to_permission value = record { kind = AuthorityType.permission; value = trim_space value }

abbrev pub to_role : Text → Authority
to_role value = record { kind = AuthorityType.role; value = trim_space value }

unfoldable pub add_permissions : List Text → List Authority → List Authority
unfolding add_authority trim_space
add_permissions [] result = result
add_permissions (value ∷ rest) result =
    add_permissions rest (add_authority (to_permission value) result)

unfoldable pub add_roles : Rbac → List Text → List Authority → List Authority
unfolding add_authority add_permissions Map.get
add_roles a [] result = result
add_roles a (name ∷ rest) result =
    add_roles a rest (
      add_permissions (keys (members a.role_permissions name))
        (add_authority (to_role name) result))

unfoldable pub listed_of : Rbac → Text → List Authority
unfolding add_permissions add_roles
listed_of a user =
    add_permissions (keys (members a.direct_permissions user))
      (add_roles a (keys (members a.user_roles user)) [])

unfoldable pub get_authorities : Option Error → Rbac → Text → Result (List Authority)
unfolding trim_space listed_of
get_authorities (some e) a login_id = err e
get_authorities none a login_id =
    let user = trim_space login_id in if is_nil user then ok [] else ok (listed_of a user)
