-- ===== src/Authorizer/Laws.antt =====
-- core/authorizer.go: what `SetRoles` and `SetPermissions` change, as `HasAuthority` sees it.
use better_token.Base.{
  ◌≡◌, refl, Bool, false, not, ◌&&◌, ◌||◌, none, List, [], ◌∷◌, ◌++◌, arith, is_nil, ite,
}
use better_token.Base.Map.{get-put}
use better_token.Text.{Text, dec_text, trim_space}
use better_token.Errors.{ok, Authority, AuthorityType, role, permission}
use better_token.Authorizer.{
  MemoryAuthorizer, dec_type, value_matches, authority_matches, any_matches, authorities_of,
  without_type, all_of_type, merge_authorities, set_roles, set_permissions, has_authority,
}

-- Whether some value of the list matches.
unfoldable pub any_value : List Text → Text → Bool
any_value [] requested = false
any_value (candidate ∷ rest) requested =
    value_matches (trim_space candidate) requested || any_value rest requested

any_matches-++ :
    (xs ys : List Authority) (r : Authority)
    → any_matches (xs ++ ys) r ≡ (any_matches xs r || any_matches ys r)
unfolding any_matches
any_matches-++ [] ys r = refl
any_matches-++ (x ∷ xs) ys r = ground (arith, any_matches-++ xs ys r)

any_matches-without_type :
    (kind : AuthorityType) (xs : List Authority) (r : Authority)
    → any_matches (without_type kind xs) r ≡ ite (dec_type r.kind kind) false (any_matches xs r)
unfolding any_matches without_type authority_matches
any_matches-without_type kind [] r = ground arith
any_matches-without_type kind (x ∷ xs) r = ground (arith, any_matches-without_type kind xs r)

any_matches-all_of_type :
    (kind : AuthorityType) (values : List Text) (r : Authority)
    → any_matches (all_of_type kind values) r
      ≡ ite (dec_type r.kind kind) (any_value values r.value) false
unfolding any_matches all_of_type authority_matches any_value
any_matches-all_of_type kind [] r = ground arith
any_matches-all_of_type kind (x ∷ xs) r = ground (arith, any_matches-all_of_type kind xs r)

-- The authorities that `HasAuthority` looks through, after a merge.
merged :
    (login_id : Text) (kind : AuthorityType) (values : List Text) (a : MemoryAuthorizer)
    (user : Text) (r : Authority)
    → any_matches
        (authorities_of (merge_authorities login_id kind (all_of_type kind values) a) user)
        r
      ≡ ite
          (dec_text (trim_space login_id) (trim_space user))
          (ite
            (dec_type r.kind kind)
            (any_value values r.value)
            (any_matches (authorities_of a user) r))
          (any_matches (authorities_of a user) r)
unfolding merge_authorities
merged login_id kind values a user r =
    let kept = without_type kind (authorities_of a login_id) in
    ground (
      arith,
      get-put dec_text (trim_space login_id) (trim_space user) (kept ++ all_of_type kind values) a,
      any_matches-++ kept (all_of_type kind values) r,
      any_matches-without_type kind (authorities_of a login_id) r,
      any_matches-all_of_type kind values r,
    )

-- After `SetRoles`, in a context that has not ended, a role that is not blank is found for the login id
-- exactly where one of the new roles matches it, and every answer on another type or for another login
-- id stays as it was. Login ids are compared without the spaces around them.
pub has_authority-set_roles :
    (login_id : Text) (roles : List Text) (a : MemoryAuthorizer) (user : Text) (request : Authority)
    → has_authority none (set_roles login_id roles a) user request
      ≡ ite
          (dec_text (trim_space login_id) (trim_space user))
          (ite
            (dec_type request.kind role)
            (ok (
              not (is_nil (trim_space request.value))
              && any_value roles (trim_space request.value)))
            (has_authority none a user request))
          (has_authority none a user request)
unfolding has_authority set_roles
has_authority-set_roles login_id roles a user request =
    ground (
      arith,
      merged login_id role roles a user (record request { value = trim_space request.value }),
    )

-- After `SetPermissions`, in a context that has not ended, a permission that is not blank is found for
-- the login id exactly where one of the new permissions matches it, and every answer on another type or
-- for another login id stays as it was. Login ids are compared without the spaces around them.
pub has_authority-set_permissions :
    (login_id : Text) (permissions : List Text) (a : MemoryAuthorizer) (user : Text)
    (request : Authority)
    → has_authority none (set_permissions login_id permissions a) user request
      ≡ ite
          (dec_text (trim_space login_id) (trim_space user))
          (ite
            (dec_type request.kind permission)
            (ok (
              not (is_nil (trim_space request.value))
              && any_value permissions (trim_space request.value)))
            (has_authority none a user request))
          (has_authority none a user request)
unfolding has_authority set_permissions
has_authority-set_permissions login_id permissions a user request = ground (
  arith,
  merged login_id permission permissions a user
      (record request { value = trim_space request.value }),
)
