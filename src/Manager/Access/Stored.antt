-- ===== src/Manager/Access/Stored.antt =====
-- core/manager.go over storage/memory/store.go: what a login that succeeds has stored.
use mathlib.Core.Path.{subst}
use better_token.Base.{
  ◌≡◌, refl, sym, ap, ◌∙◌, Bool, true, Option, none, some, List, arith, is_nil, if_pos, inl, inr,
  Bool-cases,
}
use better_token.Text.{Text, dec_text, trim_space}
use better_token.Time.{Time, Duration}
use better_token.Errors.{Result, ok}
use better_token.State.{
  LoginSubject, TokenKind, TokenStatus, TokenState, normalize_subject, normalize_state, or_default,
  default_login_type,
}
use better_token.Config.{Config}
use better_token.Event.{EventType}
use better_token.Options
use better_token.Store.{Reading}
use better_token.Memory.{TokenItem, MemoryStore, token_at}
use better_token.Memory.Tokens.{save_state}
use better_token.Memory.Sessions.{ensure_session}
use better_token.Memory.Effects.{is_storable, saved_item, token_at-save_state}
use better_token.Run.{World, M, pure, call_in, call, publish, ◌>>=◌, ◌>>◌}
use better_token.Run.Inversion.{bind-Went, Post, bind-Post, then-Post}
use better_token.Manager.{
  Manager, AuthorizerOps, store_key, sync_session_ttl, sync_by, with_plaintext_token,
}
use better_token.Manager.OnMemory.{memory_manager, reading}
use better_token.Manager.Access.{new_access_state, login_ttl, issue_access, login_with, login}
use better_token.Manager.Access.Opts.{LoginOptions, default_login_options}

-- The store has the state under a token.
pub record IsStored (s : MemoryStore) (token : Text) (state : TokenState) : Type 0 where
  pub item : TokenItem
  pub found : token_at s token ≡ some item
  pub holds : item.state ≡ state

tokens-IsStored :
    {s u : MemoryStore} {token : Text} {state : TokenState}
    → u.tokens ≡ s.tokens
    → IsStored s token state
    → IsStored u token state
tokens-IsStored e h = record { item = h.item; found = rw e h.found; holds = h.holds }

save_state-ended :
    (state : TokenState) (ttl : Duration) (r : Reading) (s : MemoryStore)
    → (save_state none (some state) ttl r s).0 ≡ ok tt
    → (r.ctx_err ≡ none) × (is_storable state ≡ true)
unfolding save_state normalize_state
save_state-ended state ttl r s e = (ground arith, ground arith)

-- A save that succeeds has stored the state in its normal form.
save_state-IsStored :
    (state : TokenState) (ttl : Duration) (r : Reading) (s : MemoryStore)
    → (save_state none (some state) ttl r s).0 ≡ ok tt
    → IsStored (save_state none (some state) ttl r s).1 state.token (normalize_state state)
save_state-IsStored state ttl r s e =
    let (c, v) = save_state-ended state ttl r s e in
    record {
      item = saved_item state ttl r.now;
      found =
          token_at-save_state state ttl r s c v state.token
          ∙ if_pos (dec_text state.token state.token) refl _ _;
      holds = refl;
    }

module _ (config : Config) (authorizer : AuthorizerOps) (sha256_hex : Text → Text) where
  abbrev m : Manager MemoryStore
  m = memory_manager config authorizer sha256_hex

  tokens-sync_session_ttl :
      (subject : LoginSubject) (ttl : Duration) (w : World MemoryStore)
      → (sync_session_ttl m subject ttl w).1.store.tokens ≡ w.store.tokens
  unfolding sync_session_ttl sync_by call call_in ensure_session
  tokens-sync_session_ttl subject ttl w = ground arith

  module _ (plain : Text) (subject : LoginSubject) (opts : LoginOptions) (t : Time) where
    abbrev issued : TokenState
    issued = new_access_state m plain subject opts t

    abbrev saving : M MemoryStore Unit
    saving = call (m.store.save_token_state issued (login_ttl m))

    saving-IsStored :
        (w next : World MemoryStore)
        → saving w ≡ (ok tt, next)
        → IsStored next.store issued.token (normalize_state issued)
    unfolding call call_in
    saving-IsStored w next e =
        subst (λ (u : MemoryStore). IsStored u issued.token (normalize_state issued))
          (ap (λ (o : Result Unit × World MemoryStore). o.1.store) e)
          (save_state-IsStored issued (login_ttl m) (reading w) w.store
            (ap (λ (o : Result Unit × World MemoryStore). o.0) e))

    abbrev finish : M MemoryStore TokenState
    finish = publish EventType.login subject plain none >> pure issued

    abbrev syncing : M MemoryStore TokenState
    syncing = sync_session_ttl m subject (login_ttl m) >> finish

    finished :
        (w : World MemoryStore) {state : TokenState}
        → (finish w).0 ≡ ok state
        → (issued ≡ state) × ((finish w).1.store ≡ w.store)
    unfolding ◌>>=◌ ◌>>◌ publish pure
    finished w {state} e = (cc, refl)

    synced :
        (w : World MemoryStore) {state : TokenState}
        → (syncing w).0 ≡ ok state
        → (issued ≡ state) × ((syncing w).1.store.tokens ≡ w.store.tokens)
    unfolding ◌>>◌
    synced w {state} e =
        let a = bind-Went (sync_session_ttl m subject (login_ttl m)) (λ _. finish) w e in
        let (p, q) =
          finished a.next
            (ap (λ (o : Result TokenState × World MemoryStore). o.0) (sym a.rest) ∙ e) in
        let stored = ap (λ (o : Result TokenState × World MemoryStore). o.1.store.tokens) a.rest in
        let kept = ap (λ (o : Result Unit × World MemoryStore). o.1.store.tokens) a.first in
        (
          p,
          stored
              ∙ ap (λ (s : MemoryStore). s.tokens) q
              ∙ sym kept
              ∙ tokens-sync_session_ttl subject (login_ttl m) w,
        )

    issue_access-IsStored :
        (w : World MemoryStore) {state : TokenState}
        → (issue_access m plain subject opts t w).0 ≡ ok state
        → (issued ≡ state)
          × IsStored
              (issue_access m plain subject opts t w).1.store
              issued.token
              (normalize_state issued)
    unfolding issue_access ◌>>◌
    issue_access-IsStored w {state} e =
        let a = bind-Went saving (λ _. syncing) w e in
        let (p, q) =
          synced a.next
            (ap (λ (o : Result TokenState × World MemoryStore). o.0) (sym a.rest) ∙ e) in
        let kept =
          ap (λ (o : Result TokenState × World MemoryStore). o.1.store.tokens) a.rest ∙ q in
        (p, tokens-IsStored kept (saving-IsStored w a.next a.first))

  module _ (login_id token : Text) (opts : LoginOptions) (enforce_nonce : Bool) where
    abbrev owner : LoginSubject
    owner =
        normalize_subject (record { login_id = trim_space login_id; login_type = opts.login_type })

    abbrev plain_token : Text
    plain_token = trim_space token

    -- Whether the state, which was made at some instant, is stored under the token's digest.
    abbrev Stored : Result TokenState × World MemoryStore → TokenState → Type 0
    Stored out state =
        (t : Time) × (issued plain_token owner opts t ≡ state)
        × IsStored out.1.store (store_key m plain_token) (normalize_state state)

    issue_access-Stored : (t : Time) → Post Stored (issue_access m plain_token owner opts t)
    unfolding new_access_state
    issue_access-Stored t w state e =
        let (p, h) = issue_access-IsStored plain_token owner opts t w e in
        (
          t,
          p,
          subst
              (λ (x : TokenState).
                IsStored (issue_access m plain_token owner opts t w).1.store
                  (store_key m plain_token) (normalize_state x))
              p h,
        )

    login_with-Stored : Post Stored (login_with m login_id token opts enforce_nonce)
    unfolding login_with
    login_with-Stored = search (then-Post Stored, bind-Post Stored, issue_access-Stored) depth 12

  normal_type :
      (t : Text)
      → or_default (or_default t default_login_type) default_login_type
        ≡ or_default t default_login_type
  normal_type t = elim (Bool-cases (is_nil t)) [ inl b ↦ rw b refl | inr b ↦ rw b (rw b refl) ]

  module _ (login_id token : Text) (opts : List (Option (LoginOptions → LoginOptions))) where
    abbrev login_opts : LoginOptions
    login_opts = Options.apply default_login_options opts

    abbrev key : Text
    key = store_key m (trim_space token)

    -- What a login that succeeds promises.
    abbrev pub LoggedIn : Result TokenState × World MemoryStore → TokenState → Type 0
    LoggedIn out state =
        (state.kind ≡ TokenKind.access)
        × (state.status ≡ TokenStatus.active)
        × (state.token ≡ trim_space token)
        × IsStored out.1.store key (record state { token = key })

    abbrev given : TokenState → M MemoryStore TokenState
    given state = pure (with_plaintext_token state token)

    abbrev issued_at : Time → TokenState
    issued_at = issued (trim_space token) (owner login_id token login_opts true) login_opts

    issued-normal : (t : Time) → normalize_state (issued_at t) ≡ issued_at t
    unfolding normalize_state normalize_subject new_access_state
    issued-normal t = rw normal_type

    delivered :
        (t : Time) (inner state : TokenState) (next : World MemoryStore)
        → issued_at t ≡ inner
        → IsStored next.store key (normalize_state inner)
        → with_plaintext_token inner token ≡ state
        → LoggedIn (ok state, next) state
    unfolding with_plaintext_token new_access_state
    delivered t inner state next p h q =
        subst (λ (x : TokenState). LoggedIn (ok x, next) x)
          (ap (λ (x : TokenState). with_plaintext_token x token) p ∙ q)
          (
            refl,
            refl,
            refl,
            subst (λ (x : TokenState). IsStored next.store key x)
                (ap normalize_state (sym p) ∙ issued-normal t) h,
          )

    -- Over the store in memory a login that succeeds returns an active access token with the plain token
    -- that it was given, without the spaces around it, and the store has the same state under the
    -- token's digest, with the digest in the token's place.
    pub login-LoggedIn :
        (w : World MemoryStore) (state : TokenState)
        → (login m login_id token opts w).0 ≡ ok state
        → LoggedIn (login m login_id token opts w) state
    unfolding login pure
    login-LoggedIn w state e =
        let a = bind-Went (login_with m login_id token login_opts true) given w e in
        let (t, p, h) =
          login_with-Stored login_id token login_opts true w a.value
            (ap (λ (o : Result TokenState × World MemoryStore). o.0) a.first) in
        let q = ap (λ (o : Result TokenState × World MemoryStore). o.0) (sym a.rest) ∙ e in
        subst (λ (out : Result TokenState × World MemoryStore). LoggedIn out state) (sym a.rest)
          (delivered t a.value state a.next p
            (subst (λ (s : MemoryStore). IsStored s key (normalize_state a.value))
              (ap (λ (o : Result TokenState × World MemoryStore). o.1.store) a.first) h)
            (cc))
