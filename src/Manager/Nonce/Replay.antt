-- ===== src/Manager/Nonce/Replay.antt =====
-- One-time numbers over the store in memory: core/nonce.go on storage/memory/store.go.
use mathlib.Core.Path.{subst}
use better_token.Base.{
  suc, ◌≡◌, refl, sym, ap, ◌∙◌, true, false, Option, none, some, List, arith, inl, inr, Bool-cases,
  if_pos, is_nil,
}
use better_token.Text.{Text, trim_space}
use better_token.Errors.{Result, ok, err}
use better_token.State.{
  TokenKind, dec_kind, TokenState, normalize_state, default_status, is_active_status,
}
use better_token.Store.{Reading}
use better_token.Config.{Config}
use better_token.Memory.{MemoryStore}
use better_token.Memory.Tokens.{consume_state, consume_state_of_kind}
use better_token.Memory.Calls.{Call, perform_all}
use better_token.Memory.Spent.{SparesAll}
use better_token.Memory.Once.{consume_once}
use better_token.Run.{
  World, continue, pure, raise, call_in, call, fail_if, now, publish, ◌>>=◌, ◌>>◌,
}
use better_token.Manager.{Manager, AuthorizerOps, store_key, consume_token_state, consume_by}
use better_token.Manager.OnMemory.{memory_manager, reading, handed_out-is_active}
use better_token.Manager.Nonce.{consume_nonce, accept_nonce, mark_nonce}

-- A state that may be accepted as a nonce.
abbrev Acceptable : Option TokenState → Type 0
Acceptable none = ⊥
Acceptable (some found) =
    (found.kind ≡ TokenKind.nonce) × (is_active_status (default_status found.status) ≡ true)

module _ {S : Type 0} (m : Manager S) where
  accept_nonce-Acceptable :
      (nonce : Text) (found : Option TokenState) (w : World S) {state : TokenState}
      → (accept_nonce m nonce found w).0 ≡ ok state
      → Acceptable found
  unfolding accept_nonce ◌>>=◌ ◌>>◌ raise pure fail_if now normalize_state
  accept_nonce-Acceptable nonce none w e = absurd (cc)
  accept_nonce-Acceptable nonce (some found) w e = ground arith

  accept_nonce-store :
      (nonce : Text) (found : Option TokenState) (w : World S)
      → (accept_nonce m nonce found w).1.store ≡ w.store
  unfolding accept_nonce mark_nonce ◌>>=◌ ◌>>◌ raise pure fail_if now normalize_state publish
  accept_nonce-store nonce none w = refl
  accept_nonce-store nonce (some found) w = ground arith

  -- The rest of `ConsumeNonce`, after the store's answer.
  accepted : Text → Result (Option TokenState) × World S → Result TokenState × World S
  accepted nonce out = continue (accept_nonce m nonce) out

  accepted-Acceptable :
      (nonce : Text) (out : Result (Option TokenState) × World S) {state : TokenState}
      → (accepted nonce out).0 ≡ ok state
      → (found : Option TokenState) × (out.0 ≡ ok found) × Acceptable found
  unfolding accepted
  accepted-Acceptable nonce (ok found, w) e = (found, refl, accept_nonce-Acceptable nonce found w e)
  accepted-Acceptable nonce (err x, w) e = absurd (cc)

  accepted-store :
      (nonce : Text) (out : Result (Option TokenState) × World S)
      → (accepted nonce out).1.store ≡ out.1.store
  unfolding accepted
  accepted-store nonce (ok found, w) = accept_nonce-store nonce found w
  accepted-store nonce (err x, w) = refl

module _ (config : Config) (authorizer : AuthorizerOps) (sha256_hex : Text → Text)
    (nonce : Text) where
  abbrev m : Manager MemoryStore
  m = memory_manager config authorizer sha256_hex

  -- The key of the nonce.
  abbrev key : Text
  key = store_key m (trim_space nonce)

  abbrev taken : World MemoryStore → Result (Option TokenState) × MemoryStore
  taken w = consume_state key (some TokenKind.nonce) (reading w) w.store

  abbrev after : World MemoryStore → Result (Option TokenState) × World MemoryStore
  after w = ((taken w).0, record w { store = (taken w).1; step = suc w.step })

  consume_nonce-eq :
      (w : World MemoryStore)
      → is_nil (trim_space nonce) ≡ false
      → consume_nonce m nonce w ≡ accepted m (trim_space nonce) (after w)
  unfolding consume_nonce ◌>>=◌ ◌>>◌ raise pure fail_if call call_in accepted consume_token_state
      consume_by consume_state_of_kind
  consume_nonce-eq w b = rw b refl

  consume_nonce-trimmed :
      (w : World MemoryStore) {state : TokenState}
      → (consume_nonce m nonce w).0 ≡ ok state
      → is_nil (trim_space nonce) ≡ false
  unfolding consume_nonce ◌>>=◌ ◌>>◌ raise pure fail_if
  consume_nonce-trimmed w e = elim (Bool-cases (is_nil (trim_space nonce))) [
    | inl b ↦ absurd (let f = rw b at e in cc)
    | inr b ↦ b
  ]

  -- What a success says of the store's answer.
  consume_nonce-taken :
      (w : World MemoryStore) {state : TokenState}
      → (consume_nonce m nonce w).0 ≡ ok state
      → (found : TokenState) × ((taken w).0 ≡ ok (some found)) × Acceptable (some found)
  consume_nonce-taken w e =
      let b = consume_nonce-trimmed w e in
      go (
        accepted-Acceptable m (trim_space nonce) (after w) (
          ap (λ (o : Result TokenState × World MemoryStore). o.0) (sym (consume_nonce-eq w b)) ∙ e))
    where
      go :
          (found : Option TokenState) × ((taken w).0 ≡ ok found) × Acceptable found
          → (found : TokenState) × ((taken w).0 ≡ ok (some found)) × Acceptable (some found)
      go (none, t, a) = absurd a
      go (some found, t, a) = (found, t, a)

  consume_nonce-store :
      (w : World MemoryStore)
      → is_nil (trim_space nonce) ≡ false
      → (consume_nonce m nonce w).1.store ≡ (taken w).1
  consume_nonce-store w b =
      rw (consume_nonce-eq w b) (accepted-store m (trim_space nonce) (after w))

  -- Over the store in memory a nonce is accepted at most once. After `ConsumeNonce` has accepted
  -- it, whatever calls of the store follow, as long as none of them saves its key, `ConsumeNonce`
  -- does not accept it again, at any time.
  pub consume_nonce-once :
      (w w' : World MemoryStore) (calls : List (Call × Reading)) {state state' : TokenState}
      → (consume_nonce m nonce w).0 ≡ ok state
      → SparesAll key calls
      → w'.store ≡ perform_all calls (consume_nonce m nonce w).1.store
      → ¬ ((consume_nonce m nonce w').0 ≡ ok state')
  consume_nonce-once w w' calls e spares p e' =
      let (found, t, (k, a)) = consume_nonce-taken w e in
      let (found', t', (k', a')) = consume_nonce-taken w' e' in
      let q = p ∙ ap (perform_all calls) (consume_nonce-store w (consume_nonce-trimmed w e)) in
      let c =
        consume_once key (some TokenKind.nonce) (some TokenKind.nonce) (reading w) (reading w')
          w.store calls t (handed_out-is_active key TokenKind.nonce (reading w) w.store t a)
          (if_pos (dec_kind found.kind TokenKind.nonce) k true false) spares
          (subst
            (λ (u : MemoryStore).
              (consume_state key (some TokenKind.nonce) (reading w') u).0 ≡ ok (some found'))
            q t') in
      let x = rw c at a' in cc
