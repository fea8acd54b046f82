-- ===== src/Manager.antt =====
-- core/manager.go: the manager, and the helpers that its methods share. The children hold the
-- methods, each as an action of `Run`.
pub mod Holds
pub mod New
pub mod OnMemory
pub mod Nonce
pub mod Access
pub mod Refresh
pub mod Online
pub mod Sessions
pub mod Authorities
use better_token.Base.{
  ◌≡◌, Bool, true, false, not, ◌||◌, Option, none, some, List, [], ◌∷◌, ite, is_nil, if◌then◌else◌,
}
use better_token.Text.{Text, dec_text, trim_space}
use better_token.Time.{Time, Duration, no_duration, is_positive, sub_time}
use better_token.Errors.{Error, Result, Authority, token_invalid}
use better_token.State.{
  LoginSubject, normalize_subject, TokenKind, dec_kind, TokenState, normalize_state, is_active,
  subject_of,
}
use better_token.Session.{Session, new_session_for_subject}
use better_token.Store.{StoreOps, AtomicOps}
use better_token.Config.{Config}
use better_token.Run.{M, Ctx, pure, call_in, call, now, fail_if, when, ◌>>=◌, ◌>>◌}

-- Authorizer of core/authorizer.go, as the manager calls it.
pub record AuthorizerOps : Type 0 where
  pub has_authority : Option Error → Text → Authority → Result Bool

-- Manager. `sha256_hex` is the digest of package crypto/sha256 in hexadecimal digits.
pub record Manager (S : Type 0) : Type 0 where
  pub config : Config
  pub store : StoreOps S
  pub atomic_store : Option (AtomicOps S)
  pub authorizer : AuthorizerOps
  pub sha256_hex : Text → Text

module _ {S : Type 0} (m : Manager S) where
  -- storeKey
  unfoldable pub store_key : Text → Text
  unfolding trim_space
  store_key token =
      let trimmed = trim_space token in if is_nil trimmed then [] else m.sha256_hex trimmed

  -- Manager.updateTokenState
  swap_or_fail : Bool → M S Unit
  unfolding fail_if
  swap_or_fail updated = fail_if (not updated) token_invalid

  swap_or_save : Option (AtomicOps S) → Ctx → TokenState → TokenState → Duration → M S Unit
  unfolding call_in ◌>>=◌ swap_or_fail
  swap_or_save none ctx expected next ttl = call_in ctx (m.store.save_token_state next ttl)
  swap_or_save (some atomic) ctx expected next ttl = do
    updated ← call_in ctx (atomic.compare_and_swap_token_state expected next ttl)
    swap_or_fail updated

  unfoldable pub update_token_state : Ctx → TokenState → TokenState → Duration → M S Unit
  unfolding swap_or_save
  update_token_state = swap_or_save m.atomic_store

  -- Manager.consumeTokenState: without the port the state is looked at first.
  consume_active : Text → TokenState → Time → M S (Option TokenState)
  unfolding pure call is_active
  consume_active token state t =
      if is_active state t then call (m.store.consume_token_state token) else pure (some state)

  consume_if_active : Text → TokenKind → Option TokenState → M S (Option TokenState)
  unfolding pure now ◌>>=◌ normalize_state dec_kind consume_active
  consume_if_active token kind none = pure none
  consume_if_active token kind (some found) =
      let state = normalize_state found in
      ite (dec_kind state.kind kind) (do t ← now; consume_active token state t) (pure (some state))

  consume_by : Option (AtomicOps S) → Text → TokenKind → M S (Option TokenState)
  unfolding call ◌>>=◌ consume_if_active
  consume_by none token kind = do
    found ← call (m.store.get_token_state token)
    consume_if_active token kind found
  consume_by (some atomic) token kind = call (atomic.consume_token_state_of_kind token kind)

  unfoldable pub consume_token_state : Text → TokenKind → M S (Option TokenState)
  unfolding consume_by
  consume_token_state = consume_by m.atomic_store

  -- Manager.syncSessionTTL
  abbrev session_or_new : LoginSubject → Option Session → Session
  session_or_new subject none = new_session_for_subject subject
  session_or_new subject (some session) = session

  sync_by : Option (AtomicOps S) → LoginSubject → Duration → M S Unit
  unfolding call ◌>>=◌
  sync_by none subject ttl = do
    found ← call (m.store.get_session subject)
    call (m.store.save_session (session_or_new subject found) ttl)
  sync_by (some atomic) subject ttl = call (atomic.ensure_session subject ttl)

  unfoldable pub sync_session_ttl : LoginSubject → Duration → M S Unit
  unfolding sync_by normalize_subject
  sync_session_ttl subject ttl = sync_by m.atomic_store (normalize_subject subject) ttl

  -- Manager.revokeRefreshForAccessToken
  bound_to : Text → TokenState → Bool
  unfolding dec_text
  bound_to access rs = elim rs.refresh_info [
    | none ↦ false
    | some info ↦ ite (dec_text info.access_token access) true false
  ]

  unfoldable pub delete_bound : Text → List TokenState → M S Unit
  unfolding pure call ◌>>◌ when bound_to
  delete_bound access [] = pure tt
  delete_bound access (rs ∷ rest) = do
    when (bound_to access rs) (call (m.store.delete_token_state rs.token))
    delete_bound access rest

  unfoldable pub revoke_refresh_for_access_token : TokenState → M S Unit
  unfolding pure call ◌>>=◌ delete_bound
  revoke_refresh_for_access_token state =
      if not m.config.refresh.revoke_refresh_on_logout || is_nil state.token then pure tt else do
        states ← call (m.store.find_token_states (subject_of state) (TokenKind.refresh ∷ []))
        delete_bound state.token states

  -- Manager.revokeRefreshExcept, and revokeRefreshForSubject
  unfoldable pub delete_others : Text → List TokenState → M S Unit
  unfolding pure call ◌>>◌ when dec_text
  delete_others keep [] = pure tt
  delete_others keep (state ∷ rest) = do
    when (ite (dec_text state.token keep) false true)
        (call (m.store.delete_token_state state.token))
    delete_others keep rest

  unfoldable pub revoke_refresh_except : LoginSubject → Text → M S Unit
  unfolding pure call ◌>>=◌ delete_others normalize_subject
  revoke_refresh_except subject keep =
      if not m.config.refresh.revoke_refresh_on_logout
      then pure tt
      else if is_nil keep
      then call (m.store.delete_token_states (normalize_subject subject) (TokenKind.refresh ∷ []))
      else do
        states ←
            call (m.store.find_token_states (normalize_subject subject) (TokenKind.refresh ∷ []))
        delete_others keep states

  unfoldable pub revoke_refresh_for_subject : LoginSubject → M S Unit
  unfolding revoke_refresh_except
  revoke_refresh_for_subject subject = revoke_refresh_except subject []

-- Manager.remainingTTL
abbrev at_least_none : Duration → Duration
at_least_none ttl = if is_positive ttl then ttl else no_duration

unfoldable pub remaining_ttl : Time → TokenState → Duration
unfolding sub_time
remaining_ttl t state = elim state.expires_at [
  | none ↦ no_duration
  | some expires ↦ at_least_none (sub_time expires t)
]

-- withPlaintextToken
unfoldable pub with_plaintext_token : TokenState → Text → TokenState
unfolding trim_space
with_plaintext_token state plaintext = record state { token = trim_space plaintext }
