-- ===== src/Authorizer.antt =====
-- core/authorizer.go: the authorities of each login id, kept in memory.
pub mod Laws
use better_token.Base.{
  ◌≡◌, Bool, true, false, ◌&&◌, ◌||◌, Option, none, some, List, [], ◌∷◌, ◌++◌, ℕ_discrete, ite,
  is_nil, if◌then◌else◌,
}
use better_token.Base.Map
use better_token.Base.Map.{Map}
use better_token.Text.{Text, dec_text, trim_space, has_prefix, before_star}
use better_token.Errors.{Error, Result, ok, err, Authority, AuthorityType, permission, role}

unfoldable pub dec_type : Discrete AuthorityType
unfolding ℕ_discrete
dec_type = hlevel ℕ_discrete

-- authorityMatches, on trimmed values: the same text, or a text that a final `*` completes.
abbrev completes : Option Text → Text → Bool
completes none requested = false
completes (some start) requested = has_prefix requested start

unfoldable pub value_matches : Text → Text → Bool
unfolding trim_space has_prefix before_star dec_text
value_matches candidate requested =
    let c = trim_space candidate in
    let r = trim_space requested in ite (dec_text c r) true (completes (before_star c) r)

unfoldable pub authority_matches : Authority → Authority → Bool
unfolding value_matches dec_type
authority_matches candidate requested =
    ite (dec_type candidate.kind requested.kind) (value_matches candidate.value requested.value)
      false

-- MemoryAuthorizer
abbrev pub MemoryAuthorizer : Type 0
MemoryAuthorizer = Map Text (List Authority)

-- SetAuthorities: blank values are left out.
unfoldable pub trimmed : List Authority → List Authority
unfolding trim_space
trimmed [] = []
trimmed (authority ∷ rest) =
    let value = trim_space authority.value in
    let others = trimmed rest in
    if is_nil value then others else record authority { value = value } ∷ others

unfoldable pub set_authorities : Text → List Authority → MemoryAuthorizer → MemoryAuthorizer
unfolding trim_space trimmed Map.put dec_text
set_authorities login_id authorities a =
    Map.put dec_text (trim_space login_id) (trimmed authorities) a

abbrev or_none : Option (List Authority) → List Authority
or_none none = []
or_none (some authorities) = authorities

abbrev pub authorities_of : MemoryAuthorizer → Text → List Authority
authorities_of a login_id = or_none (Map.get dec_text (trim_space login_id) a)

-- mergeAuthorities: those of the type give way.
unfoldable pub without_type : AuthorityType → List Authority → List Authority
unfolding dec_type
without_type kind [] = []
without_type kind (authority ∷ rest) =
    let others = without_type kind rest in
    ite (dec_type authority.kind kind) others (authority ∷ others)

unfoldable pub merge_authorities :
    Text → AuthorityType → List Authority → MemoryAuthorizer → MemoryAuthorizer
unfolding without_type trim_space Map.put Map.get dec_text
merge_authorities login_id kind authorities a =
    Map.put dec_text (trim_space login_id)
      (without_type kind (authorities_of a login_id) ++ authorities) a

-- SetRoles and SetPermissions
unfoldable pub all_of_type : AuthorityType → List Text → List Authority
unfolding trim_space
all_of_type kind [] = []
all_of_type kind (value ∷ rest) =
    record { kind = kind; value = trim_space value } ∷ all_of_type kind rest

unfoldable pub set_roles : Text → List Text → MemoryAuthorizer → MemoryAuthorizer
unfolding merge_authorities all_of_type
set_roles login_id roles a = merge_authorities login_id role (all_of_type role roles) a

unfoldable pub set_permissions : Text → List Text → MemoryAuthorizer → MemoryAuthorizer
unfolding merge_authorities all_of_type
set_permissions login_id permissions a =
    merge_authorities login_id permission (all_of_type permission permissions) a

-- HasAuthority
unfoldable pub any_matches : List Authority → Authority → Bool
unfolding authority_matches
any_matches [] requested = false
any_matches (candidate ∷ rest) requested =
    authority_matches candidate requested || any_matches rest requested

unfoldable pub has_authority : Option Error → MemoryAuthorizer → Text → Authority → Result Bool
unfolding trim_space any_matches Map.get dec_text
has_authority (some e) a login_id requested = err e
has_authority none a login_id requested =
    let value = trim_space requested.value in
    ok (
      if is_nil value
      then false
      else any_matches (authorities_of a login_id) (record requested { value = value }))

-- GetAuthorities
unfoldable pub get_authorities : Option Error → MemoryAuthorizer → Text → Result (List Authority)
unfolding Map.get dec_text trim_space
get_authorities (some e) a login_id = err e
get_authorities none a login_id = ok (authorities_of a login_id)
