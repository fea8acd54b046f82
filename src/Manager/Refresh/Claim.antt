-- ===== src/Manager/Refresh/Claim.antt =====
-- core/refresh.go: the claim of a refresh token, `consumeUsableRefreshToken`, over the store in memory.
use mathlib.Core.Path.{subst}
use better_token.Base.{
  suc, ◌≡◌, refl, sym, ap, ◌∙◌, true, false, Option, none, some, List, arith, if_pos,
}
use better_token.Text.{Text}
use better_token.Errors.{Result, ok, err}
use better_token.State.{
  TokenKind, dec_kind, TokenState, normalize_state, default_status, is_active_status,
}
use better_token.Store.{Reading}
use better_token.Config.{Config}
use better_token.Memory.{MemoryStore}
use better_token.Memory.Tokens.{consume_state, consume_state_of_kind}
use better_token.Memory.Calls.{Call, perform_all}
use better_token.Memory.Spent.{SparesAll}
use better_token.Memory.Once.{consume_once}
use better_token.Run.{World, continue, pure, raise, call_in, call, fail_if, now, ◌>>=◌, ◌>>◌}
use better_token.Manager.{Manager, AuthorizerOps, store_key, consume_token_state, consume_by}
use better_token.Manager.OnMemory.{memory_manager, reading, handed_out-is_active}
use better_token.Manager.Refresh.{check_usable, refuse_expired, consume_usable_refresh_token}

-- A state that may be claimed.
abbrev Claimable : Option TokenState → Type 0
Claimable none = ⊥
Claimable (some found) =
    (found.kind ≡ TokenKind.refresh) × (is_active_status (default_status found.status) ≡ true)

module _ {S : Type 0} (m : Manager S) where
  check_usable-Claimable :
      (found : Option TokenState) (w : World S) {state : TokenState}
      → (check_usable m found (refuse_expired m) w).0 ≡ ok state
      → Claimable found
  unfolding check_usable refuse_expired ◌>>=◌ ◌>>◌ raise pure fail_if now normalize_state
  check_usable-Claimable none w e = absurd (cc)
  check_usable-Claimable (some found) w e = ground arith

  check_usable-store :
      (found : Option TokenState) (w : World S)
      → (check_usable m found (refuse_expired m) w).1.store ≡ w.store
  unfolding check_usable refuse_expired ◌>>=◌ ◌>>◌ raise pure fail_if now normalize_state
  check_usable-store none w = refl
  check_usable-store (some found) w = ground arith

  -- The rest of the claim, after the store's answer.
  abbrev claimed : Result (Option TokenState) × World S → Result TokenState × World S
  claimed out = continue (λ found. check_usable m found (refuse_expired m)) out

  claimed-Claimable :
      (out : Result (Option TokenState) × World S) {state : TokenState}
      → (claimed out).0 ≡ ok state
      → (found : TokenState) × (out.0 ≡ ok (some found)) × Claimable (some found)
  claimed-Claimable (ok none, w) e = absurd (check_usable-Claimable none w e)
  claimed-Claimable (ok (some found), w) e = (found, refl, check_usable-Claimable (some found) w e)
  claimed-Claimable (err x, w) e = absurd (cc)

  claimed-store : (out : Result (Option TokenState) × World S) → (claimed out).1.store ≡ out.1.store
  claimed-store (ok found, w) = check_usable-store found w
  claimed-store (err x, w) = refl

module _ (config : Config) (authorizer : AuthorizerOps) (sha256_hex : Text → Text)
    (refresh_token : Text) where
  abbrev m : Manager MemoryStore
  m = memory_manager config authorizer sha256_hex

  abbrev key : Text
  key = store_key m refresh_token

  abbrev taken : World MemoryStore → Result (Option TokenState) × MemoryStore
  taken w = consume_state key (some TokenKind.refresh) (reading w) w.store

  abbrev after : World MemoryStore → Result (Option TokenState) × World MemoryStore
  after w = ((taken w).0, record w { store = (taken w).1; step = suc w.step })

  claim-eq :
      (w : World MemoryStore) → consume_usable_refresh_token m refresh_token w ≡ claimed m (after w)
  unfolding consume_usable_refresh_token ◌>>=◌ call call_in consume_token_state consume_by
      consume_state_of_kind
  claim-eq w = refl

  -- Over the store in memory a refresh token is claimed at most once. After a claim has succeeded,
  -- whatever calls of the store follow, as long as none of them saves its key, no claim of the
  -- token succeeds, at any time.
  pub consume_usable_refresh_token-once :
      (w w' : World MemoryStore) (calls : List (Call × Reading)) {state state' : TokenState}
      → (consume_usable_refresh_token m refresh_token w).0 ≡ ok state
      → SparesAll key calls
      → w'.store ≡ perform_all calls (consume_usable_refresh_token m refresh_token w).1.store
      → ¬ ((consume_usable_refresh_token m refresh_token w').0 ≡ ok state')
  consume_usable_refresh_token-once w w' calls e spares p e' =
      let (found, t, (k, a)) =
        claimed-Claimable m (after w)
          (ap (λ (o : Result TokenState × World MemoryStore). o.0) (sym (claim-eq w)) ∙ e) in
      let (found', t', (k', a')) =
        claimed-Claimable m (after w')
          (ap (λ (o : Result TokenState × World MemoryStore). o.0) (sym (claim-eq w')) ∙ e') in
      let q =
        p
        ∙ ap (perform_all calls) (
            ap (λ (o : Result TokenState × World MemoryStore). o.1.store) (claim-eq w)
            ∙ claimed-store m (after w)) in
      let c =
        consume_once key (some TokenKind.refresh) (some TokenKind.refresh) (reading w) (reading w')
          w.store calls t (handed_out-is_active key TokenKind.refresh (reading w) w.store t a)
          (if_pos (dec_kind found.kind TokenKind.refresh) k true false) spares
          (subst
            (λ (u : MemoryStore).
              (consume_state key (some TokenKind.refresh) (reading w') u).0 ≡ ok (some found'))
            q t') in
      let x = rw c at a' in cc
