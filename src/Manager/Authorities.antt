-- ===== src/Manager/Authorities.antt =====
-- core/manager.go: the checks of authorities. The authorizer is asked, and nothing is changed, so
-- a check is a result: `ctx_err` and `auth` are what the context holds.
pub mod Laws
use mathlib.Core.Option
use better_token.Base.{
  Bool, true, false, not, Option, none, some, List, [], ◌∷◌, is_nil, if◌then◌else◌,
}
use better_token.Text.{Text, trim_space}
use better_token.Errors.{
  Error, Result, ok, err, Authority, AuthorityType, permission, role, empty_authority,
  authority_denied, denied, is_authority_denied,
}
use better_token.Context.{AuthContext, require_auth}
use better_token.Manager.{Manager, AuthorizerOps}

-- Permission and Role of core/authorizer.go
unfoldable pub to_permission : Text → Authority
unfolding trim_space
to_permission value = record { kind = permission; value = trim_space value }

unfoldable pub to_role : Text → Authority
unfolding trim_space
to_role value = record { kind = role; value = trim_space value }

abbrev granted : Authority → Result Bool → Result (Unit {0})
granted authority (ok true) = ok tt
granted authority (ok false) = err (denied authority)
granted authority (err e) = err e

module _ (a : AuthorizerOps) (ctx_err : Option Error) (auth : Option AuthContext) where
  -- Manager.CheckAuthority
  ask : AuthContext → Authority → Result (Unit {0})
  ask who authority =
      if is_nil authority.value
      then err empty_authority
      else granted authority (a.has_authority ctx_err who.login_id authority)

  unfoldable pub check_authority : Authority → Result (Unit {0})
  unfolding ask require_auth trim_space
  check_authority authority = elim (require_auth auth) [
    | err e ↦ err e
    | ok who ↦ ask who (record authority { value = trim_space authority.value })
  ]

  -- Manager.CheckPermission and CheckRole
  unfoldable pub check_permission : Text → Result (Unit {0})
  unfolding check_authority to_permission
  check_permission value = check_authority (to_permission value)

  unfoldable pub check_role : Text → Result (Unit {0})
  unfolding check_authority to_role
  check_role value = check_authority (to_role value)

  -- Manager.CheckAll
  unfoldable pub check_all : List Authority → Result (Unit {0})
  unfolding check_authority
  check_all [] = ok tt
  check_all (authority ∷ rest) = elim (check_authority authority) [
    | ok u ↦ check_all rest
    | err e ↦ err e
  ]

  -- Manager.CheckAny: `last` is the latest denial.
  unfoldable pub check_any_from : Option Error → List Authority → Result (Unit {0})
  unfolding check_authority
  check_any_from last [] = err (Option.get_or last authority_denied)
  check_any_from last (authority ∷ rest) = elim (check_authority authority) [
    | ok u ↦ ok tt
    | err e ↦
        (let others = check_any_from (some e) rest in
          if is_authority_denied e then others else err e)
  ]

  unfoldable pub check_any : List Authority → Result (Unit {0})
  unfolding check_any_from
  check_any authorities = check_any_from none authorities
