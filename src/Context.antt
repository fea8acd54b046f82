-- ===== src/Context.antt =====
-- core/context.go: what a request's context says of its login. The context itself is the value
-- that `WithAuth` stored in it, if any.
use better_token.Base.{Bool, Option, none, some, is_nil, is_some, if◌then◌else◌}
use better_token.Text.{Text, Bytes}
use better_token.Time.{Time}
use better_token.Errors.{Result, ok, err, not_login}
use better_token.State.{TokenKind, TokenState}

pub record AuthContext : Type 0 where
  pub token : Text
  pub kind : TokenKind
  pub login_id : Text
  pub login_type : Text
  pub device : Text
  pub expires_at : Option Time
  pub metadata : Bytes

-- NewAuthContext
unfoldable pub new_auth_context : TokenState → AuthContext
new_auth_context state = record {
  token = state.token;
  kind = state.kind;
  login_id = state.login_id;
  login_type = state.login_type;
  device = state.device;
  expires_at = state.expires_at;
  metadata = state.metadata;
}

-- WithAuth: nil leaves the context as it is.
unfoldable pub with_auth : Option AuthContext → Option AuthContext → Option AuthContext
with_auth ctx none = ctx
with_auth ctx (some auth) = some auth

-- RequireAuth
unfoldable pub require_auth : Option AuthContext → Result AuthContext
require_auth none = err not_login
require_auth (some auth) = if is_nil auth.login_id then err not_login else ok auth

-- LoginIDFromContext and RequireLoginID
unfoldable pub login_id_from_context : Option AuthContext → Option Text
login_id_from_context none = none
login_id_from_context (some auth) = if is_nil auth.login_id then none else some auth.login_id

unfoldable pub require_login_id : Option AuthContext → Result Text
unfolding login_id_from_context
require_login_id ctx = elim (login_id_from_context ctx) [ none ↦ err not_login | some id ↦ ok id ]

-- TokenFromContext
unfoldable pub token_from_context : Option AuthContext → Option Text
token_from_context none = none
token_from_context (some auth) = if is_nil auth.token then none else some auth.token

-- IsAuthenticated
unfoldable pub is_authenticated : Option AuthContext → Bool
unfolding login_id_from_context
is_authenticated ctx = is_some (login_id_from_context ctx)
