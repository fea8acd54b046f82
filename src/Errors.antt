-- ===== src/Errors.antt =====
-- core/errors.go: the errors that the package returns, and results.
use better_token.Base.{List, ℕ, Bool, true, false, if◌then◌else◌}
use better_token.Text.{Text}

-- AuthorityType of core/authorizer.go; any other string is `other` with a number of its own.
pub data AuthorityType : Type 0 where
  permission role : AuthorityType
  other : ℕ → AuthorityType

pub record Authority : Type 0 where
  pub kind : AuthorityType
  pub value : Text

-- `canceled` and `deadline_exceeded` are those of package context, and `foreign` is an error of
-- the store or of another component outside the package, by a number of its own.
pub data Error : Type 0 where
  empty_login_id empty_token token_not_found token_invalid unsupported_kind not_login : Error
  authority_denied empty_session_id session_not_found empty_authority empty_device : Error
  empty_refresh_token refresh_token_not_found refresh_token_expired refresh_token_revoked : Error
  next_refresh_token_required next_refresh_token_reuse next_access_token_reuse : Error
  empty_nonce nonce_not_found nonce_expired nonce_replayed event_listener_panic : Error
  canceled deadline_exceeded : Error
  foreign : ℕ → Error
  -- AuthorityDeniedError
  denied : Authority → Error
  -- fmt.Errorf("generate nonce: %w", err) and fmt.Errorf("restore refresh token: %w", err)
  generate_nonce_failed : Error → Error
  restore_refresh_token : Error → Error
  -- fmt.Errorf("random: read entropy: %w", err) of pkg/rand
  read_entropy : Error → Error
  -- token/errors.go; `generate_token` wraps what stopped it, and
  -- `empty_random` is ErrGenerateToken with the reason `random string is empty`
  empty_user_id empty_jwt empty_jwt_secret invalid_token : Error
  invalid_issuer : Text → Error
  invalid_audience : List Text → Error
  unsupported_style unsupported_algorithm : Text → Error
  generate_token : Error → Error
  empty_random : Error
  -- fmt.Errorf("failed to parse jwt token: %w", err) and fmt.Errorf("failed to verify token: %w", err)
  parse_failed verify_failed : Error → Error
  -- ErrInvalidCookie of plugins/http, with any reason
  invalid_cookie : Error
  -- errors.Join
  join : Error → Error → Error

pub data Result {ℓ} (A : Type ℓ) : Type ℓ where
  ok : A → Result A
  err : Error → Result A

-- errors.Is(err, ErrAuthorityDenied)
abbrev pub is_authority_denied : Error → Bool
is_authority_denied authority_denied = true
is_authority_denied (denied a) = true
is_authority_denied (generate_nonce_failed e) = is_authority_denied e
is_authority_denied (restore_refresh_token e) = is_authority_denied e
is_authority_denied (read_entropy e) = is_authority_denied e
is_authority_denied (generate_token e) = is_authority_denied e
is_authority_denied (parse_failed e) = is_authority_denied e
is_authority_denied (verify_failed e) = is_authority_denied e
is_authority_denied (join d e) = if is_authority_denied d then true else is_authority_denied e
is_authority_denied e = false
