-- ===== src/Plugins/Http/Laws.antt =====
-- plugins/http, plugins/gin: which requests the middleware lets through, and that it keeps to the sources
-- that are enabled.
use better_token.Base.{
  ℕ, suc, ◌≡◌, refl, sym, ap, ◌∙◌, true, false, Option, some, inl, inr, Option-cases, Bool-cases,
}
use better_token.Text.{Text, trim_space}
use better_token.Errors.{Result, ok, err}
use better_token.State.{TokenKind, TokenState, default_kind, or_default, default_login_type}
use better_token.Context.{AuthContext, new_auth_context, with_auth}
use better_token.Run.{World, pure, raise, ◌>>=◌, continue}
use better_token.Manager.{Manager, with_plaintext_token}
use better_token.Manager.Access.{get_token_state, read_token_state}
use better_token.Manager.Access.Reading.{
  IsUsable, reading, key, read_token_state_sound, read_token_state-Carries,
}
use better_token.Plugins.{authenticate, require_access}
use better_token.Plugins.Lookup.{with_defaults, look, first_of, resolve}
use better_token.Plugins.Http.{
  Request, HttpOptions, cookie_getter, order_of, extract_token, Response, served, respond, handle,
}

-- Where tokens in a query are not allowed, as by default, the token of a request does not depend on its
-- query.
pub extract_token-query :
    {U : Type 0} (fold : ℕ → ℕ) (o : HttpOptions U) (r : Request) (q : Text → Text)
    → o.allow_query ≡ false
    → extract_token fold o (some (record r { query_value = q })) ≡ extract_token fold o (some r)
unfolding extract_token resolve with_defaults first_of look
extract_token-query fold o r q e = elim (Bool-cases o.read_cookie) [
  | inl c ↦ rw (e, order_of, c, cookie_getter) refl
  | inr c ↦ rw (e, order_of, c, cookie_getter) refl
]

module _ {S : Type 0} (m : Manager S) where
  -- What is stored for a token that the manager lets through, and what its context says.
  pub record IsAdmitted (token : Text) (auth : AuthContext) (w : World S) : Type 0 where
    pub state : TokenState
    pub found : TokenState
    pub accepted : (get_token_state m token w).0 ≡ ok state
    pub holds : auth ≡ new_auth_context state
    pub is_access : auth.kind ≡ TokenKind.access
    pub stored_access : default_kind found.kind ≡ TokenKind.access
    pub token_of : auth.token ≡ trim_space token
    pub login_id : auth.login_id ≡ found.login_id
    pub login_type : auth.login_type ≡ or_default found.login_type default_login_type
    pub device : auth.device ≡ found.device
    pub metadata : auth.metadata ≡ found.metadata
    pub stored : (m.store.get_token_state (key m token) (reading w) w.store).0 ≡ ok (some found)
    pub usable : IsUsable (w.env (suc w.step)).now found

  get_token_state-read :
      (token : Text) (w : World S) {state : TokenState}
      → (get_token_state m token w).0 ≡ ok state
      → (read : TokenState) × ((read_token_state m token true w).0 ≡ ok read)
        × (with_plaintext_token read token ≡ state)
  unfolding get_token_state ◌>>=◌ pure
  get_token_state-read token w {state} e = go (read_token_state m token true w) refl e
    where
      go :
          (out : Result TokenState × World S)
          → read_token_state m token true w ≡ out
          → (get_token_state m token w).0 ≡ ok state
          → (read : TokenState) × ((read_token_state m token true w).0 ≡ ok read)
            × (with_plaintext_token read token ≡ state)
      go (ok read, w') p q =
          let f : ◌≡◌ {A = Result TokenState} (ok (with_plaintext_token read token)) (ok state) =
            rw p at q in
          (read, ap (λ (o : Result TokenState × World S). o.0) p, cc)
      go (err x, w') p q = absurd (let f = rw p at q in cc)

  require_access-access :
      (kind : TokenKind) (state : TokenState) (w : World S) {auth : AuthContext}
      → (require_access kind state w).0 ≡ ok auth
      → (kind ≡ TokenKind.access) × (new_auth_context state ≡ auth)
  unfolding pure raise
  require_access-access TokenKind.access state w e = (refl, cc)
  require_access-access TokenKind.unset state w e = absurd (cc)
  require_access-access TokenKind.refresh state w e = absurd (cc)
  require_access-access TokenKind.nonce state w e = absurd (cc)
  require_access-access (TokenKind.other n) state w e = absurd (cc)

  -- The context of a state that was read for a token says what is stored of its holder.
  admitted :
      (token : Text) (w : World S) (state : TokenState) {auth : AuthContext}
      → (get_token_state m token w).0 ≡ ok state
      → state.kind ≡ TokenKind.access
      → auth ≡ new_auth_context state
      → IsAdmitted token auth w
  unfolding new_auth_context with_plaintext_token
  admitted token w state {auth} accepted k h =
      let (read, r, p) = get_token_state-read token w accepted in
      let (found, s, u) = read_token_state_sound m token true w r in
      let c = read_token_state-Carries m found token true w s r in
      let q : auth ≡ new_auth_context (with_plaintext_token read token) =
        h ∙ ap new_auth_context (sym p) in
      record {
        state = state;
        found = found;
        accepted = accepted;
        holds = h;
        is_access = ap (λ (a : AuthContext). a.kind) h ∙ k;
        stored_access = sym c.kind ∙ ap (λ (t : TokenState). t.kind) p ∙ k;
        token_of = ap (λ (a : AuthContext). a.token) q;
        login_id = ap (λ (a : AuthContext). a.login_id) q ∙ c.login_id;
        login_type = ap (λ (a : AuthContext). a.login_type) q ∙ c.login_type;
        device = ap (λ (a : AuthContext). a.device) q ∙ c.device;
        metadata = ap (λ (a : AuthContext). a.metadata) q ∙ c.metadata;
        stored = s;
        usable = u;
      }

  pub authenticate-IsAdmitted :
      (token : Text) (w : World S) {auth : AuthContext}
      → (authenticate (some m) token w).0 ≡ ok auth
      → IsAdmitted token auth w
  unfolding authenticate ◌>>=◌ new_auth_context
  authenticate-IsAdmitted token w {auth} e = go (get_token_state m token w) refl e
    where
      go :
          (out : Result TokenState × World S)
          → get_token_state m token w ≡ out
          → (continue (λ (state : TokenState). require_access {S = S} state.kind state) out).0
            ≡ ok auth
          → IsAdmitted token auth w
      go (err x, w') p q = absurd (cc)
      go (ok state, w') p q =
          let accepted : (get_token_state m token w).0 ≡ ok state =
            ap (λ (o : Result TokenState × World S). o.0) p in
          let (k, h) = require_access-access state.kind state w' q in
          admitted token w state (ap (λ (o : Result TokenState × World S). o.0) p) k (sym h)

  -- The middleware hands a request on only with the context of a token that it has found in the request.
  -- Over any store, the store has answered the token's digest with a state that is stored as an access
  -- token's, or without a kind, which stands for access, is active or of unset status, and has not
  -- expired. The context says of its holder what that state does: its login id, its login type (the
  -- default where it is unset), its device and its metadata; its token is the one found, trimmed.
  pub handle-IsAdmitted :
      {U : Type 0} (fold : ℕ → ℕ) (o : HttpOptions U) (ctx : Option AuthContext)
      (r : Option Request) (w : World S) {ctx' : Option AuthContext}
      → (handle fold o (some m) ctx r w).0 ≡ served ctx'
      → (token : Text) × (auth : AuthContext) × (extract_token fold o r ≡ some token)
        × (ctx' ≡ some auth)
        × IsAdmitted token auth w
  unfolding handle with_auth
  handle-IsAdmitted {U} fold o ctx r w {ctx'} e = elim (Option-cases (extract_token fold o r)) [
    | inl n ↦ absurd (let f = rw (n, handle) at e in cc)
    | inr (token, s) ↦
        go token s (authenticate (some m) token w) refl (let f = rw (s, handle) at e in f)
  ]
    where
      go :
          (token : Text)
          → extract_token fold o r ≡ some token
          → (out : Result AuthContext × World S) → authenticate (some m) token w ≡ out
          → (respond o.unauthorized ctx (authenticate (some m) token w)).0 ≡ served ctx'
          → (token : Text) × (auth : AuthContext) × (extract_token fold o r ≡ some token)
            × (ctx' ≡ some auth)
            × IsAdmitted token auth w
      go token s (err x, w') p q = absurd (let f = rw p at q in cc)
      go token s (ok auth, w') p q =
          let f : ◌≡◌ {A = Response U} (served (some auth)) (served ctx') = rw p at q in
          (
            token,
            auth,
            s,
            (let g : some auth ≡ ctx' = cc in sym g),
            authenticate-IsAdmitted token w (ap (λ (o : Result AuthContext × World S). o.0) p),
          )
