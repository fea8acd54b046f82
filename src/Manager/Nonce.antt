-- ===== src/Manager/Nonce.antt =====
-- core/nonce.go: one-time numbers.
pub mod Replay
use better_token.Base.{
  Bool, true, false, not, Option, none, some, List, [], ◌∷◌, ◌≡◌, ite, is_nil, if◌then◌else◌,
}
use better_token.Text.{Text, Bytes, trim_space}
use better_token.Time.{Time, add_duration}
use better_token.Errors.{
  Error, Result, ok, err, empty_nonce, nonce_not_found, unsupported_kind, nonce_replayed,
  token_invalid, nonce_expired, generate_nonce_failed,
}
use better_token.State.{
  LoginSubject, normalize_subject, TokenKind, dec_kind, TokenStatus, TokenState, normalize_state,
  is_expired_at, is_consumed, is_active_status, subject_of, mark_consumed,
}
use better_token.Event.{EventType}
use better_token.Options
use better_token.Run.{
  M, World, caller, pure, raise, call, now, check_ctx, random_string, publish, fail_if, ◌>>=◌, ◌>>◌,
}
use better_token.Manager.{Manager, store_key, consume_token_state, with_plaintext_token}

-- generateNonceOptions, with WithNonceSubject, WithNoncePurpose and WithNonceMetadata
pub record GenerateNonceOptions : Type 0 where
  pub subject : LoginSubject
  pub purpose : Text
  pub metadata : Bytes

abbrev pub no_generate_options : GenerateNonceOptions
no_generate_options = record {
  subject = record { login_id = []; login_type = [] };
  purpose = [];
  metadata = [];
}

unfoldable pub with_nonce_subject : LoginSubject → GenerateNonceOptions → GenerateNonceOptions
unfolding normalize_subject
with_nonce_subject subject opts = record opts { subject = normalize_subject subject }

unfoldable pub with_nonce_purpose : Text → GenerateNonceOptions → GenerateNonceOptions
unfolding trim_space
with_nonce_purpose purpose opts = record opts { purpose = trim_space purpose }

unfoldable pub with_nonce_metadata : Bytes → GenerateNonceOptions → GenerateNonceOptions
with_nonce_metadata metadata opts = record opts { metadata = metadata }

module _ {S : Type 0} (m : Manager S) where
  -- Manager.GenerateNonce
  unfoldable pub new_nonce_state : Text → GenerateNonceOptions → Time → TokenState
  unfolding store_key add_duration
  new_nonce_state nonce opts t = record {
    token = store_key m nonce;
    kind = TokenKind.nonce;
    login_id = opts.subject.login_id;
    login_type = opts.subject.login_type;
    device = [];
    created_at = t;
    last_active_at = t;
    expires_at = some (add_duration t m.config.nonce.timeout);
    status = TokenStatus.active;
    metadata = opts.metadata;
    refresh_info = none;
    nonce_info = some (record { purpose = opts.purpose; consumed_at = none });
    online_info = none;
  }

  -- fmt.Errorf("generate nonce: %w", err)
  draw : M S Text
  unfolding random_string
  draw w =
      let (r, w') = random_string m.config.nonce.length w in
      elim r [ ok nonce ↦ (ok nonce, w') | err e ↦ (err (generate_nonce_failed e), w') ]

  unfoldable pub generate_nonce :
      List (Option (GenerateNonceOptions → GenerateNonceOptions)) → M S Text
  unfolding ◌>>=◌ ◌>>◌ check_ctx draw fail_if now call pure new_nonce_state Options.apply
  generate_nonce opts = do
    check_ctx
    nonce ← draw
    fail_if (is_nil nonce) empty_nonce
    let generate_opts = Options.apply no_generate_options opts
    t ← now
    call (m.store.save_token_state (new_nonce_state nonce generate_opts t) m.config.nonce.timeout)
    pure nonce

  -- Manager.ConsumeNonce
  mark_nonce : Text → TokenState → M S TokenState
  unfolding ◌>>=◌ ◌>>◌ now publish pure mark_consumed with_plaintext_token
  mark_nonce nonce state = do
    t ← now
    let done = mark_consumed t state
    publish EventType.nonce_consumed (subject_of done) done.token none
    pure (with_plaintext_token done nonce)

  accept_nonce : Text → Option TokenState → M S TokenState
  unfolding ◌>>=◌ ◌>>◌ raise fail_if now normalize_state is_expired_at dec_kind mark_nonce
  accept_nonce nonce none = raise nonce_not_found
  accept_nonce nonce (some found) =
      let state = normalize_state found in
      do
        fail_if (ite (dec_kind state.kind TokenKind.nonce) false true) unsupported_kind
        fail_if (is_consumed state) nonce_replayed
        fail_if (not (is_active_status state.status)) token_invalid
        t ← now
        fail_if (is_expired_at state.expires_at t) nonce_expired
        mark_nonce nonce state

  unfoldable pub consume_nonce : Text → M S TokenState
  unfolding ◌>>=◌ ◌>>◌ fail_if store_key consume_token_state accept_nonce trim_space
  consume_nonce nonce =
      let trimmed = trim_space nonce in
      do
        fail_if (is_nil trimmed) empty_nonce
        found ← consume_token_state m (store_key m trimmed) TokenKind.nonce
        accept_nonce trimmed found
