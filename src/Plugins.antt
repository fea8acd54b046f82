-- ===== src/Plugins.antt =====
-- plugins/authenticate.go: the check that the plugins for the frameworks share. The children hold what
-- they look up and the plugins.
pub mod Lookup
pub mod Http
pub mod Grpc
use better_token.Base.{Bool, true, false, Option, none, some}
use better_token.Text.{Text}
use better_token.Errors.{not_login, token_invalid}
use better_token.State.{TokenKind, TokenState}
use better_token.Context.{AuthContext, new_auth_context}
use better_token.Run.{M, pure, raise, ◌>>=◌}
use better_token.Manager.{Manager}
use better_token.Manager.Access.{get_token_state}

module _ {S : Type 0} where
  abbrev require_access : TokenKind → TokenState → M S AuthContext
  require_access TokenKind.access state = pure (new_auth_context state)
  require_access kind state = raise token_invalid

  -- Authenticate
  unfoldable pub authenticate : Option (Manager S) → Text → M S AuthContext
  unfolding ◌>>=◌ pure raise get_token_state new_auth_context
  authenticate none token = raise not_login
  authenticate (some m) token = do state ← get_token_state m token; require_access state.kind state
