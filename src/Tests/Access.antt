-- ===== src/Tests/Access.antt =====
-- The theorems on authorities, at concrete inputs.
use better_token.Base.{if_pos, if_neg, ◌≡◌, refl, true, false, none, some, List, [], ◌∷◌}
use better_token.Text.{text, dec_text, trim_space}
use better_token.Errors.{ok, Authority, permission, role}
use better_token.State.{TokenKind}
use better_token.Context.{AuthContext}
use better_token.Manager.{AuthorizerOps}
use better_token.Manager.Authorities.{check_all, check_any}
use better_token.Manager.Authorities.Laws.{AllPass, Passes, check_all-AllPass, check_any-Passes}
use better_token.Authorizer
use better_token.Authorizer.{MemoryAuthorizer, dec_type, set_roles, set_permissions}
use better_token.Authorizer.Laws.{any_value, has_authority-set_roles, has_authority-set_permissions}
use better_token.Rbac
use better_token.Base.Map
use better_token.Rbac.Listing.{IsTrimmed, has_authority-get_authorities}
use better_token.Rbac.{Rbac, grant_permission, new_authorizer, assign_role, revoke_role}
use better_token.Rbac.Laws.{has_authority-assign_role, has_authority-revoke_role}

abbrev authorities : MemoryAuthorizer
authorities = (text "u", record { kind = permission; value = text "read:*" } ∷ []) ∷ []

abbrev ops : AuthorizerOps
ops = record { has_authority = λ c id a. Authorizer.has_authority c authorities id a }

abbrev auth : AuthContext
auth = record {
  token = text "t";
  kind = TokenKind.access;
  login_id = text "u";
  login_type = text "login";
  device = [];
  expires_at = none;
  metadata = [];
}

abbrev read_and_role : List Authority
read_and_role =
    record { kind = role; value = text "admin" }
    ∷ record { kind = permission; value = text "read:a" }
    ∷ []

check_all-AllPass_example :
    (check_all ops none (some auth) read_and_role ≡ ok tt
      → AllPass ops none (some auth) read_and_role)
    × (AllPass ops none (some auth) read_and_role
        → check_all ops none (some auth) read_and_role ≡ ok tt)
check_all-AllPass_example = check_all-AllPass ops none (some auth) read_and_role

check_any-Passes_example :
    (check_any ops none (some auth) read_and_role ≡ ok tt
      → Passes ops none (some auth) read_and_role)
    × (Passes ops none (some auth) read_and_role
        → check_any ops none (some auth) read_and_role ≡ ok tt)
check_any-Passes_example = check_any-Passes ops none (some auth) read_and_role

has_authority-set_roles_example :
    Authorizer.has_authority none
      (set_roles (text "u") (text "admin" ∷ []) authorities)
      (text " u")
      (record { kind = role; value = text "admin" })
    ≡ ok true
unfolding dec_text trim_space dec_type any_value Authorizer.value_matches
has_authority-set_roles_example =
    has_authority-set_roles (text "u") (text "admin" ∷ []) authorities (text " u")
      (record { kind = role; value = text "admin" })

has_authority-set_permissions_example :
    Authorizer.has_authority none
      (set_permissions (text "u") (text "write" ∷ []) authorities)
      (text "u")
      (record { kind = permission; value = text "read:a" })
    ≡ ok false
unfolding dec_text trim_space dec_type any_value Authorizer.value_matches
has_authority-set_permissions_example =
    has_authority-set_permissions (text "u") (text "write" ∷ []) authorities (text "u")
      (record { kind = permission; value = text "read:a" })

has_authority-assign_role_example :
    Rbac.has_authority none
      (assign_role (text " u") (text "admin") new_authorizer)
      (text "u")
      (record { kind = role; value = text "admin" })
    ≡ ok true
unfolding dec_text trim_space
has_authority-assign_role_example =
    has_authority-assign_role (text " u") (text "admin") new_authorizer (text "u") (text "admin")
      refl refl

has_authority-revoke_role_example :
    Rbac.has_authority none
      (revoke_role (text "u") (text "admin") (assign_role (text "u") (text "admin") new_authorizer))
      (text "u")
      (record { kind = role; value = text "admin" })
    ≡ ok false
unfolding dec_text trim_space
has_authority-revoke_role_example =
    has_authority-revoke_role (text "u") (text "admin")
      (assign_role (text "u") (text "admin") new_authorizer) (text "u") (text "admin") refl refl

abbrev staffed : Rbac
staffed =
    grant_permission (text "admin") (text "read:*")
      (assign_role (text "u") (text "admin") new_authorizer)

staffed-IsTrimmed : IsTrimmed staffed (text "u")
unfolding dec_text trim_space assign_role grant_permission Map.get Map.put Map.delete
staffed-IsTrimmed = record {
  roles = (refl, tt);
  of_roles = λ name. elim (dec_text (text "admin") name) [
    | yes p ↦ rw (if_pos (dec_text (text "admin") name) p) (refl, tt)
    | no p ↦ rw (if_neg (dec_text (text "admin") name) p) tt
  ];
  direct = tt;
}

has_authority-get_authorities_example :
    Rbac.has_authority none staffed
      (text " u")
      (record { kind = permission; value = text "read:a" })
    ≡ ok true
unfolding dec_text trim_space Rbac.get_authorities any_value grant_permission assign_role Map.delete
    Authorizer.value_matches
has_authority-get_authorities_example =
    has_authority-get_authorities staffed (text " u")
      (record { kind = permission; value = text "read:a" }) staffed-IsTrimmed refl refl refl
