-- ===== src/Manager/Refresh.antt =====
-- core/refresh.go: refresh tokens.
pub mod Flow
pub mod Claim
use better_token.Base.{
  Bool, true, false, not, ◌&&◌, ◌||◌, Option, none, some, List, [], ◌∷◌, ite, is_nil, if◌then◌else◌,
}
use better_token.Text.{Text, Bytes, dec_text, trim_space}
use better_token.Time.{Time}
use better_token.Errors.{
  Error, Result, ok, err, empty_login_id, empty_token, unsupported_kind, empty_refresh_token,
  refresh_token_not_found, refresh_token_expired, refresh_token_revoked,
  next_refresh_token_required, next_refresh_token_reuse, next_access_token_reuse,
  restore_refresh_token, join,
}
use better_token.State.{
  LoginSubject, normalize_subject, TokenKind, dec_kind, TokenStatus, RefreshInfo, TokenState,
  normalize_state, is_expired_at, is_active_status, subject_of, mark_consumed, mark_revoked,
  deadline,
}
use better_token.Event.{EventType}
use better_token.Options
use better_token.Run.{
  M, World, caller, detached, pure, raise, call, attempt, or_cleanup, now, publish, fail_if, when,
  ◌>>=◌, ◌>>◌,
}
use better_token.Manager.{
  Manager, store_key, update_token_state, consume_token_state, remaining_ttl, with_plaintext_token,
}
use better_token.Manager.Access.{login_with}
use better_token.Manager.Access.Opts.{
  LoginOptions, default_login_options, LogoutOptions, default_logout_options,
}

pub record LoginResult : Type 0 where
  pub token_state : TokenState
  pub refresh_state : TokenState

-- refreshFlowOptions, with WithNextRefreshToken, WithRefreshDevice and WithRefreshMetadata
pub record RefreshFlowOptions : Type 0 where
  pub next_refresh_token : Text
  pub device : Text
  pub metadata : Bytes

abbrev pub no_flow_options : RefreshFlowOptions
no_flow_options = record { next_refresh_token = []; device = []; metadata = [] }

unfoldable pub with_next_refresh_token : Text → RefreshFlowOptions → RefreshFlowOptions
unfolding trim_space
with_next_refresh_token token opts = record opts { next_refresh_token = trim_space token }

unfoldable pub with_refresh_device : Text → RefreshFlowOptions → RefreshFlowOptions
unfolding trim_space
with_refresh_device device opts = record opts { device = trim_space device }

unfoldable pub with_refresh_metadata : Bytes → RefreshFlowOptions → RefreshFlowOptions
with_refresh_metadata metadata opts = record opts { metadata = metadata }

abbrev empty_refresh_info : RefreshInfo
empty_refresh_info = record {
  access_token = [];
  rotated_from = [];
  rotated_to = [];
  last_used_at = none;
  revoked_at = none;
}

abbrev same : Text → Text → Bool
unfolding dec_text
same a b = ite (dec_text a b) true false

-- The access token that a refresh state is bound to, or the empty text.
abbrev pub bound_access : TokenState → Text
bound_access state = elim state.refresh_info [ none ↦ [] | some info ↦ info.access_token ]

module _ {S : Type 0} (m : Manager S) where
  -- Manager.newRefreshState
  unfoldable pub refresh_state_at : Text → TokenState → Time → TokenState
  unfolding store_key
  refresh_state_at refresh_token access t = record {
    token = store_key m refresh_token;
    kind = TokenKind.refresh;
    login_id = access.login_id;
    login_type = access.login_type;
    device = access.device;
    created_at = t;
    last_active_at = t;
    expires_at = deadline t m.config.refresh.timeout;
    status = TokenStatus.active;
    metadata = access.metadata;
    refresh_info = some (record empty_refresh_info { access_token = access.token });
    nonce_info = none;
    online_info = none;
  }

  unfoldable pub new_refresh_state : Text → TokenState → M S TokenState
  unfolding ◌>>=◌ now pure refresh_state_at
  new_refresh_state refresh_token access = do
    t ← now
    pure (refresh_state_at refresh_token access t)

  -- Manager.LoginWithRefresh
  unfoldable pub login_with_refresh :
      Text → Text → Text → List (Option (LoginOptions → LoginOptions)) → M S LoginResult
  unfolding ◌>>=◌ ◌>>◌ fail_if now call attempt or_cleanup publish pure trim_space store_key
      login_with new_refresh_state remaining_ttl with_plaintext_token Options.apply same
  login_with_refresh login_id access_token refresh_token opts =
      let plain = trim_space refresh_token in
      do
        fail_if (is_nil plain) empty_refresh_token
        fail_if (same (store_key m access_token) (store_key m plain)) next_refresh_token_reuse
        access ← login_with m login_id access_token (Options.apply default_login_options opts) true
        state ← new_refresh_state plain access
        t ← now
        or_cleanup (call (m.store.save_token_state state (remaining_ttl t state)))
            (attempt (call (m.store.delete_token_state access.token)))
        publish EventType.refresh_issued (subject_of access) access.token none
        pure (record {
          token_state = with_plaintext_token access access_token;
          refresh_state = with_plaintext_token state plain;
        })

  -- Manager.validateNextAccessToken
  rotation_reuses : TokenState → Text → Bool
  unfolding store_key same
  rotation_reuses state next_refresh = elim state.refresh_info [
    | none ↦ false
    | some info ↦ same (store_key m next_refresh) info.access_token
  ]

  unfoldable pub validate_next_access_token : TokenState → Text → Text → M S Unit
  unfolding ◌>>◌ fail_if store_key rotation_reuses same
  validate_next_access_token state next_access next_refresh = do
    fail_if (m.config.refresh.rotate_refresh_token && rotation_reuses state next_refresh)
        next_refresh_token_reuse
    fail_if
        (m.config.refresh.revoke_access_token_on_refresh
          && not (is_nil (bound_access state))
          && same (store_key m next_access) (bound_access state))
        next_access_token_reuse

  -- Manager.loadUsableRefreshToken
  not_expired : Text → TokenState → Time → M S TokenState
  unfolding ◌>>◌ pure raise attempt call is_expired_at
  not_expired key state t =
      if is_expired_at state.expires_at t
      then (do attempt (call (m.store.delete_token_state key)); raise refresh_token_expired)
      else pure state

  check_usable : Option TokenState → (TokenState → Time → M S TokenState) → M S TokenState
  unfolding ◌>>=◌ ◌>>◌ raise fail_if now normalize_state dec_kind
  check_usable none finish = raise refresh_token_not_found
  check_usable (some found) finish =
      let state = normalize_state found in
      do
        fail_if (ite (dec_kind state.kind TokenKind.refresh) false true) unsupported_kind
        fail_if (not (is_active_status state.status)) refresh_token_revoked
        t ← now
        finish state t

  unfoldable pub load_usable_refresh_token : Text → M S TokenState
  unfolding ◌>>=◌ call check_usable not_expired store_key
  load_usable_refresh_token refresh_token =
      let key = store_key m refresh_token in
      do found ← call (m.store.get_token_state key); check_usable found (not_expired key)

  -- Manager.consumeUsableRefreshToken
  refuse_expired : TokenState → Time → M S TokenState
  unfolding ◌>>◌ pure fail_if is_expired_at
  refuse_expired state t = do
    fail_if (is_expired_at state.expires_at t) refresh_token_expired
    pure state

  unfoldable pub consume_usable_refresh_token : Text → M S TokenState
  unfolding ◌>>=◌ consume_token_state check_usable refuse_expired store_key
  consume_usable_refresh_token refresh_token = do
    found ← consume_token_state m (store_key m refresh_token) TokenKind.refresh
    check_usable found refuse_expired

  -- Manager.RevokeRefreshToken
  revoke_found : Option TokenState → M S Unit
  unfolding ◌>>=◌ ◌>>◌ raise fail_if now update_token_state publish normalize_state mark_revoked
      dec_kind remaining_ttl
  revoke_found none = raise refresh_token_not_found
  revoke_found (some found) =
      let state = normalize_state found in
      do
        fail_if (ite (dec_kind state.kind TokenKind.refresh) false true) unsupported_kind
        t ← now
        let next = mark_revoked t state
        t' ← now
        update_token_state m caller state next (remaining_ttl t' next)
        publish EventType.refresh_revoked (subject_of next) (bound_access state) none

  unfoldable pub revoke_refresh_token : Text → M S Unit
  unfolding ◌>>=◌ ◌>>◌ fail_if call revoke_found store_key trim_space
  revoke_refresh_token refresh_token =
      let plain = trim_space refresh_token in
      do
        fail_if (is_nil plain) empty_refresh_token
        found ← call (m.store.get_token_state (store_key m plain))
        revoke_found found

  -- Manager.RevokeRefreshByLoginID
  unfoldable pub revoke_refresh_by_login_id :
      Text → List (Option (LogoutOptions → LogoutOptions)) → M S Unit
  unfolding ◌>>◌ fail_if call publish trim_space normalize_subject Options.apply
  revoke_refresh_by_login_id login_id opts =
      let id = trim_space login_id in
      let logout_opts = Options.apply default_logout_options opts in
      let subject =
        normalize_subject (record { login_id = id; login_type = logout_opts.login_type }) in
      do
        fail_if (is_nil id) empty_login_id
        call (m.store.delete_token_states subject (TokenKind.refresh ∷ []))
        publish EventType.refresh_revoked subject [] none
