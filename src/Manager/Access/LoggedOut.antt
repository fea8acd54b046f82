-- ===== src/Manager/Access/LoggedOut.antt =====
-- core/manager.go over storage/memory/store.go: a token is not accepted again after a logout.
use mathlib.Core.Path.{subst}
use better_token.Base.{
  ◌≡◌, refl, sym, ap, ◌∙◌, Bool, false, Option, none, some, List, [], ◌∷◌, arith, is_nil, inl, inr,
  Bool-cases,
}
use better_token.Text.{Text, trim_space}
use better_token.Errors.{Result, ok, err}
use better_token.State.{LoginSubject, TokenKind, TokenState, normalize_state, subject_of}
use better_token.Config.{Config}
use better_token.Event.{EventType}
use better_token.Store.{Reading}
use better_token.Memory.{MemoryStore}
use better_token.Memory.Index.{IsConsistent}
use better_token.Memory.Calls.{Call, perform_all}
use better_token.Memory.Spent.{
  IsSpent, SparesAll, perform_all-IsSpent, find_states-IsSpent, delete_state-IsSpent,
}
use better_token.Memory.Gone.{status-get_state, delete_state-gone, get_state-named}
use better_token.Run.{
  World, M, Ctx, continue, pure, raise, call_in, call, attempt, fail_if, now, publish, ◌>>=◌, ◌>>◌,
}
use better_token.Run.Inversion.{bind-Went}
use better_token.Manager.{
  Manager, AuthorizerOps, store_key, delete_bound, revoke_refresh_for_access_token,
}
use better_token.Manager.Holds.{
  Any, OpHolds, OpHolds-Any, Holds, Holds-pure, Holds-if, Holds-call, Holds-bind, Holds-then,
  Holds-when, Holds-publish,
}
use better_token.Manager.OnMemory.{memory_manager, reading}
use better_token.Manager.Access.{check_state, live_state, drop_expired, read_token_state, logout}
use better_token.Manager.Access.Reading.{read_token_state_sound}

module _ (config : Config) (authorizer : AuthorizerOps) (sha256_hex : Text → Text) where
  abbrev m : Manager MemoryStore
  m = memory_manager config authorizer sha256_hex

  abbrev ending : Text → TokenState → M MemoryStore Unit
  ending token state =
      revoke_refresh_for_access_token m state
      >> publish EventType.logout (subject_of state) token none

  module _ (key : Text) where
    deletes : (k : Text) → OpHolds (IsSpent key) Any (m.store.delete_token_state k)
    deletes k =
        OpHolds-Any (m.store.delete_token_state k) (λ r s h. (delete_state-IsSpent key k r h).at)

    delete_bound-Holds :
        (access : Text) (states : List TokenState)
        → Holds (IsSpent key) Any (delete_bound m access states)
    unfolding delete_bound
    delete_bound-Holds access [] = Holds-pure tt tt
    delete_bound-Holds access (rs ∷ rest) =
        Holds-then _ _ (Holds-when _ _ (Holds-call _ (deletes rs.token)))
          (delete_bound-Holds access rest)

    finds :
        (subject : LoginSubject) (kinds : List TokenKind)
        → OpHolds (IsSpent key) Any (m.store.find_token_states subject kinds)
    finds subject kinds =
        OpHolds-Any (m.store.find_token_states subject kinds)
          (λ r s h. (find_states-IsSpent key subject kinds r h).at)

    revoke-Holds :
        (state : TokenState) → Holds (IsSpent key) Any (revoke_refresh_for_access_token m state)
    unfolding revoke_refresh_for_access_token
    revoke-Holds state = Holds-if _ _ _ (Holds-pure tt tt) (
        Holds-bind _ _ (Holds-call _ (finds _ _))
          (λ states h. delete_bound-Holds state.token states))

    ending-Holds :
        (token : Text) (state : TokenState) → Holds (IsSpent key) Any (ending token state)
    ending-Holds token state = Holds-then _ _ (revoke-Holds state) (Holds-publish _ _ _ _)

    -- A deletion that succeeds leaves nothing under the token.
    deleted-IsSpent :
        (w next : World MemoryStore)
        → call (m.store.delete_token_state key) w ≡ (ok tt, next)
        → IsSpent key next.store
    unfolding call call_in
    deleted-IsSpent w next e =
        subst (λ (s : MemoryStore). IsSpent key s)
          (ap (λ (o : Result Unit × World MemoryStore). o.1.store) e)
          (delete_state-gone key (reading w) w.store
            (ap (λ (o : Result Unit × World MemoryStore). o.0) e))

  check_state-token :
      (key : Text) (found : TokenState) (w : World MemoryStore) {state : TokenState}
      → (check_state m key false (some found) w).0 ≡ ok state
      → state.token ≡ found.token
  unfolding check_state live_state drop_expired ◌>>=◌ ◌>>◌ raise pure fail_if now normalize_state
      attempt
  check_state-token key found w e = ground arith

  module _ (token : Text) where
    abbrev plain_key : Text
    plain_key = store_key m (trim_space token)

    abbrev answered : World MemoryStore → Result (Option TokenState) × World MemoryStore
    answered w = call_in Ctx.caller (m.store.get_token_state plain_key) w

    checked-token :
        (out : Result (Option TokenState) × World MemoryStore) {state : TokenState}
        → ((found : TokenState) → out.0 ≡ ok (some found) → found.token ≡ plain_key)
        → (continue (check_state m plain_key false) out).0 ≡ ok state
        → state.token ≡ plain_key
    unfolding check_state raise
    checked-token (ok none, w) h e = absurd (cc)
    checked-token (ok (some found), w) h e = check_state-token plain_key found w e ∙ h found refl
    checked-token (err x, w) h e = absurd (cc)

    read_token_state-token :
        (w : World MemoryStore) {state : TokenState}
        → IsConsistent w.store
        → (read_token_state m token false w).0 ≡ ok state
        → state.token ≡ plain_key
    unfolding read_token_state ◌>>=◌ ◌>>◌ raise pure fail_if call call_in
    read_token_state-token w h e = elim (Bool-cases (is_nil (trim_space token))) [
      | inl b ↦ absurd (let f = rw b at e in cc)
      | inr b ↦
          checked-token (answered w) (λ found x. get_state-named plain_key (reading w) w.store h x)
            (let f = rw b at e in f)
    ]

    abbrev drop_and_end : TokenState → M MemoryStore Unit
    drop_and_end state = call (m.store.delete_token_state state.token) >> ending token state

    drop_and_end-IsSpent :
        (state : TokenState) (w : World MemoryStore)
        → state.token ≡ plain_key
        → (drop_and_end state w).0 ≡ ok tt
        → IsSpent plain_key (drop_and_end state w).1.store
    unfolding ◌>>◌
    drop_and_end-IsSpent state w p e =
        let a =
          bind-Went (call (m.store.delete_token_state state.token)) (λ _. ending token state) w e in
        let gone =
          subst (λ (k : Text). IsSpent k a.next.store) p
            (deleted-IsSpent state.token w a.next a.first) in
        subst (λ (out : Result Unit × World MemoryStore). IsSpent plain_key out.1.store)
          (sym a.rest) ((ending-Holds plain_key token state).keeps a.next gone)

    logout-IsSpent :
        (w : World MemoryStore)
        → IsConsistent w.store
        → (logout m token w).0 ≡ ok tt
        → IsSpent plain_key (logout m token w).1.store
    unfolding logout
    logout-IsSpent w h e =
        let a = bind-Went (read_token_state m token false) drop_and_end w e in
        let p =
          read_token_state-token w h
            (ap (λ (o : Result TokenState × World MemoryStore). o.0) a.first) in
        subst (λ (out : Result Unit × World MemoryStore). IsSpent plain_key out.1.store)
          (sym a.rest)
          (drop_and_end-IsSpent a.value a.next p
            (ap (λ (o : Result Unit × World MemoryStore). o.0) (sym a.rest) ∙ e))

    -- Over the store in memory, from a consistent store: after `Logout` has succeeded, whatever calls of the
    -- store follow, as long as none of them saves the token's key, the token is not accepted again, at any
    -- time and with or without automatic renewal.
    pub logout_final :
        (w w' : World MemoryStore) (calls : List (Call × Reading)) (renew : Bool)
        {state : TokenState}
        → IsConsistent w.store
        → (logout m token w).0 ≡ ok tt
        → SparesAll plain_key calls
        → w'.store ≡ perform_all calls (logout m token w).1.store
        → ¬ ((read_token_state m token renew w').0 ≡ ok state)
    logout_final w w' calls renew h e spares p e' =
        let (found, g, u) = read_token_state_sound m token renew w' e' in
        let spent =
          subst (λ (s : MemoryStore). IsSpent plain_key s) (sym p)
            (perform_all-IsSpent plain_key calls spares (logout-IsSpent w h e)) in
        let c = status-get_state plain_key (reading w') w'.store spent g in
        let a = u.active in let x = rw c at a in cc
