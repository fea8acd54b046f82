-- ===== src/Manager/Access.antt =====
-- core/manager.go and core/option.go: login, reading a token, renewal and logout.
pub mod Opts
pub mod Reading
pub mod Stored
pub mod LoggedOut
pub mod KickedOut
use better_token.Base.{
  Bool, true, false, not, ◌&&◌, Option, none, some, List, [], ◌∷◌, ite, is_nil, if◌then◌else◌,
}
use better_token.Text.{Text, trim_space}
use better_token.Time.{Time, Duration, no_duration, is_positive, add_duration, sub_time}
use better_token.Errors.{
  Result, ok, err, empty_login_id, empty_token, empty_nonce, token_not_found, token_invalid,
}
use better_token.State.{
  LoginSubject, normalize_subject, TokenKind, dec_kind, TokenStatus, TokenState, normalize_state,
  is_expired_at, is_active_status, subject_of, touch, deadline,
}
use better_token.Event.{EventType}
use better_token.Options
use better_token.Run.{
  M, World, caller, pure, raise, call, attempt, now, publish, fail_if, when, ◌>>=◌, ◌>>◌,
}
use better_token.Manager.{
  Manager, store_key, update_token_state, sync_session_ttl, revoke_refresh_for_access_token,
  revoke_refresh_except, revoke_refresh_for_subject, with_plaintext_token, at_least_none,
}
use better_token.Manager.Nonce.{consume_nonce}
use Opts.{LoginOptions, default_login_options, LogoutOptions, default_logout_options}

module _ {S : Type 0} (m : Manager S) where
  -- Manager.login
  require_nonce : Text → M S Unit
  unfolding ◌>>=◌ ◌>>◌ fail_if consume_nonce pure
  require_nonce nonce = do fail_if (is_nil nonce) empty_nonce; consume_nonce m nonce; pure tt

  replace_others : LoginSubject → Text → M S Unit
  unfolding ◌>>◌ call revoke_refresh_except publish
  replace_others subject keep = do
    call (m.store.delete_token_states subject (TokenKind.access ∷ []))
    revoke_refresh_except m subject keep
    publish EventType.replaced subject [] none

  unfoldable pub new_access_state : Text → LoginSubject → LoginOptions → Time → TokenState
  unfolding store_key add_duration
  new_access_state token subject opts t = record {
    token = store_key m token;
    kind = TokenKind.access;
    login_id = subject.login_id;
    login_type = subject.login_type;
    device = opts.device;
    created_at = t;
    last_active_at = t;
    expires_at = deadline t m.config.timeout;
    status = TokenStatus.active;
    metadata = opts.metadata;
    refresh_info = none;
    nonce_info = none;
    online_info = none;
  }

  -- `ttl` of a login: a timeout that is not positive is none.
  abbrev pub login_ttl : Duration
  login_ttl = at_least_none m.config.timeout

  issue_access : Text → LoginSubject → LoginOptions → Time → M S TokenState
  unfolding ◌>>◌ call sync_session_ttl publish pure new_access_state
  issue_access token subject opts t =
      let state = new_access_state token subject opts t in
      do
        call (m.store.save_token_state state login_ttl)
        sync_session_ttl m subject login_ttl
        publish EventType.login subject token none
        pure state

  unfoldable pub login_with : Text → Text → LoginOptions → Bool → M S TokenState
  unfolding ◌>>=◌ ◌>>◌ fail_if when now require_nonce replace_others issue_access trim_space
      normalize_subject
  login_with login_id token opts enforce_nonce =
      let id = trim_space login_id in
      let plain = trim_space token in
      let subject = normalize_subject (record { login_id = id; login_type = opts.login_type }) in
      do
        fail_if (is_nil id) empty_login_id
        fail_if (is_nil plain) empty_token
        when (enforce_nonce && m.config.require_nonce) (require_nonce opts.nonce)
        t ← now
        when (not m.config.concurrent) (replace_others subject opts.preserve_refresh)
        issue_access plain subject opts t

  -- Manager.Login
  unfoldable pub login : Text → Text → List (Option (LoginOptions → LoginOptions)) → M S TokenState
  unfolding ◌>>=◌ pure login_with Options.apply with_plaintext_token
  login login_id token opts = do
    state ← login_with login_id token (Options.apply default_login_options opts) true
    pure (with_plaintext_token state token)

  -- Manager.getTokenState
  renewed : Time → TokenState → TokenState
  unfolding add_duration
  renewed t state =
      if is_positive m.config.active_timeout
      then record (touch t state) { expires_at = some (add_duration t m.config.active_timeout) }
      else touch t state

  abbrev ttl_from : Time → Option Time → Duration
  ttl_from t none = no_duration
  ttl_from t (some expires) = at_least_none (sub_time expires t)

  auto_renew : Time → TokenState → M S TokenState
  unfolding ◌>>=◌ ◌>>◌ update_token_state sync_session_ttl publish pure renewed sub_time
  auto_renew t state =
      let next = renewed t state in
      let ttl = ttl_from t next.expires_at in
      do
        update_token_state m caller state next ttl
        sync_session_ttl m (subject_of next) ttl
        publish EventType.renew_timeout (subject_of next) next.token none
        pure next

  drop_expired : Text → M S TokenState
  unfolding ◌>>◌ attempt call raise
  drop_expired key = do attempt (call (m.store.delete_token_state key)); raise token_not_found

  live_state : Text → Bool → TokenState → Time → M S TokenState
  unfolding pure drop_expired auto_renew dec_kind is_expired_at
  live_state key allow_renew state t =
      if is_expired_at state.expires_at t
      then drop_expired key
      else if allow_renew
          && m.config.auto_renew
          && ite (dec_kind state.kind TokenKind.access) true false
      then auto_renew t state
      else pure state

  check_state : Text → Bool → Option TokenState → M S TokenState
  unfolding ◌>>=◌ ◌>>◌ raise fail_if now live_state normalize_state
  check_state key allow_renew none = raise token_not_found
  check_state key allow_renew (some found) =
      let state = normalize_state found in
      do
        fail_if (not (is_active_status state.status)) token_invalid
        t ← now
        live_state key allow_renew state t

  unfoldable pub read_token_state : Text → Bool → M S TokenState
  unfolding ◌>>=◌ ◌>>◌ fail_if call check_state store_key trim_space
  read_token_state token allow_renew =
      let plain = trim_space token in
      let key = store_key m plain in
      do
        fail_if (is_nil plain) empty_token
        found ← call (m.store.get_token_state key)
        check_state key allow_renew found

  -- Manager.GetTokenState
  unfoldable pub get_token_state : Text → M S TokenState
  unfolding ◌>>=◌ pure read_token_state with_plaintext_token
  get_token_state token = do
    state ← read_token_state token true
    pure (with_plaintext_token state token)

  -- Manager.IsValid
  abbrev is_ok : Result TokenState → Bool
  is_ok (ok state) = true
  is_ok (err e) = false

  unfoldable pub is_valid : Text → World S → Bool × World S
  unfolding get_token_state
  is_valid token w = let (r, w') = get_token_state token w in (is_ok r, w')

  -- Manager.Renew
  unfoldable pub renew : Text → Duration → M S Unit
  unfolding ◌>>=◌ ◌>>◌ now read_token_state update_token_state sync_session_ttl publish
  renew token ttl = do
    state ← read_token_state token false
    t ← now
    let next = record (touch t state) { expires_at = deadline t ttl }
    update_token_state m caller state next ttl
    sync_session_ttl m (subject_of next) ttl
    publish EventType.renew_timeout (subject_of next) next.token none

  -- Manager.Logout
  unfoldable pub logout : Text → M S Unit
  unfolding ◌>>=◌ ◌>>◌ call read_token_state revoke_refresh_for_access_token publish
  logout token = do
    state ← read_token_state token false
    call (m.store.delete_token_state state.token)
    revoke_refresh_for_access_token m state
    publish EventType.logout (subject_of state) token none

  -- Manager.LogoutByLoginID
  unfoldable pub logout_by_login_id :
      Text → List (Option (LogoutOptions → LogoutOptions)) → M S Unit
  unfolding ◌>>◌ fail_if when call revoke_refresh_for_subject publish trim_space normalize_subject
      Options.apply
  logout_by_login_id login_id opts =
      let id = trim_space login_id in
      let logout_opts = Options.apply default_logout_options opts in
      let subject =
        normalize_subject (record { login_id = id; login_type = logout_opts.login_type }) in
      do
        fail_if (is_nil id) empty_login_id
        call (m.store.delete_token_states subject (TokenKind.access ∷ []))
        revoke_refresh_for_subject m subject
        when logout_opts.delete_session (call (m.store.delete_session subject))
        publish EventType.kick_out subject [] none
