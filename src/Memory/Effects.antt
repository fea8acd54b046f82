-- ===== src/Memory/Effects.antt =====
-- What a client of the store in memory sees: the live state of each token, and what each operation
-- makes of it.
use mathlib.Core.Option
use mathlib.Core.Path.{subst}
use better_token.Base.{
  ◌≡◌, refl, sym, ◌∙◌, ap, Bool, true, false, not, ◌&&◌, ◌||◌, Option, none, some, arith, ite, inl,
  inr, Option-cases, Bool-cases, if_pos, if_neg, if◌then◌else◌, is_nil,
}
use better_token.Base.Map.{get-put}
use better_token.Text.{Text, dec_text}
use better_token.Time.{Time, Duration}
use better_token.Errors.{Result, ok}
use better_token.State.{
  TokenKind, TokenState, dec_state, normalize_state, is_expired_at, effective_expires_at, deadline,
  is_active, mark_consumed,
}
use better_token.State.Lifetime.{effective_expires_at_lem}
use better_token.Store.{Reading}
use better_token.Memory.{TokenItem, MemoryStore, item_expired, token_at}
use better_token.Memory.Tokens.{
  is_nonce_kind, as_expected, install, save_state, compare_and_swap, get_state, consume_state,
  wanted,
}
use better_token.Memory.Index.{token_at-delete_token}
use better_token.Memory.Invariant.{token_at-install, reread_expired}

-- The item of a token that has not expired.
abbrev pub unexpired : Time → Option TokenItem → Option TokenItem
unexpired now none = none
unexpired now (some item) = if item_expired item now then none else some item

unfoldable pub live_at : MemoryStore → Text → Time → Option TokenItem
live_at s token now = unexpired now (token_at s token)

abbrev pub state_of : Option TokenItem → Option TokenState
state_of none = none
state_of (some item) = some item.state

-- A read returns the live state, and changes the view of no token at that time.
pub get_state-eq :
    (token : Text) (r : Reading) (s : MemoryStore)
    → r.ctx_err ≡ none
    → (get_state token r s).0 ≡ ok (state_of (live_at s token r.now))
unfolding get_state live_at
get_state-eq token r s c = rw c (elim (Option-cases (token_at s token)) [
  | inl e ↦ rw e
  | inr (item, e) ↦ rw e (elim (Bool-cases (item_expired item r.now)) [
    | inl x ↦ rw (x, reread_expired token r.now s e x)
    | inr x ↦ rw x
  ])
])

-- What may be saved: a state with a token, and with an owner unless it is a nonce.
abbrev pub is_storable : TokenState → Bool
is_storable state =
    not (is_nil state.token)
    && not (
        is_nil (normalize_state state).login_id && not (is_nonce_kind (normalize_state state).kind))

-- The item that a save makes.
abbrev pub saved_item : TokenState → Duration → Time → TokenItem
saved_item state ttl now = record {
  state = normalize_state state;
  expires_at = effective_expires_at state.expires_at now ttl;
}

pub save_state-eq :
    (state : TokenState) (ttl : Duration) (r : Reading) (s : MemoryStore)
    → r.ctx_err ≡ none
    → is_storable state ≡ true
    → save_state none (some state) ttl r s
      ≡ (ok tt, install (normalize_state state) (effective_expires_at state.expires_at r.now ttl) s)
unfolding save_state normalize_state
save_state-eq state ttl r s c v = rw c (ground arith)

-- After a save of a state that may be stored, in a context that has not ended, the token has the new
-- item and every other token has the item that it had.
pub token_at-save_state :
    (state : TokenState) (ttl : Duration) (r : Reading) (s : MemoryStore)
    → r.ctx_err ≡ none
    → is_storable state ≡ true
    → (k : Text)
    → token_at (save_state none (some state) ttl r s).1 k
      ≡ ite (dec_text state.token k) (some (saved_item state ttl r.now)) (token_at s k)
unfolding normalize_state
token_at-save_state state ttl r s c v k =
    rw (save_state-eq state ttl r s c v) (
      token_at-install (normalize_state state) (effective_expires_at state.expires_at r.now ttl) s
        k)

-- A state that may be stored and was saved is read back, in its normal form, until its lifetime or its
-- own instant has passed, where neither context has ended.
pub get_state-save_state :
    (state : TokenState) (ttl : Duration) (r r' : Reading) (s : MemoryStore)
    → r.ctx_err ≡ none
    → r'.ctx_err ≡ none
    → is_storable state ≡ true
    → (get_state state.token r' (save_state none (some state) ttl r s).1).0
      ≡ ok (
          if is_expired_at (deadline r.now ttl) r'.now || is_expired_at state.expires_at r'.now
          then none
          else some (normalize_state state))
unfolding live_at item_expired normalize_state
get_state-save_state state ttl r r' s c c' v =
    get_state-eq state.token r' (save_state none (some state) ttl r s).1 c'
    ∙ rw
        (
          token_at-save_state state ttl r s c v state.token,
          if_pos (dec_text state.token state.token) refl,
        )
        (ground (arith, effective_expires_at_lem state.expires_at r.now ttl r'.now))

-- The swap: whether it is made, and what it makes.
abbrev pub swap_result :
    Bool → TokenState → Duration → Time → MemoryStore → Result Bool × MemoryStore
swap_result true next ttl now s =
    (ok true, install (normalize_state next) (effective_expires_at next.expires_at now ttl) s)
swap_result false next ttl now s = (ok false, s)

abbrev pub equals : Option TokenState → TokenState → Bool
equals none expected = false
equals (some found) expected = ite (dec_state found expected) true false

-- A swap between two states of one token, the next of which may be stored, in a context that has not
-- ended: where the live state equals the expected one it is replaced, and where there is none or
-- another, the answer is `false` and the store stays as it was.
pub compare_and_swap-eq :
    (expected next : TokenState) (ttl : Duration) (r : Reading) (s : MemoryStore)
    → r.ctx_err ≡ none
    → is_storable next ≡ true
    → expected.token ≡ next.token
    → compare_and_swap (some expected) (some next) ttl r s
      ≡ swap_result (equals (state_of (live_at s next.token r.later)) expected) next ttl r.now s
unfolding compare_and_swap save_state as_expected live_at normalize_state
compare_and_swap-eq expected next ttl r s c v p =
    rw (if_pos (dec_text expected.token next.token) p, c) (ground arith)

-- Whether a consumption marks an item, and what it makes of one.
abbrev pub is_wanted : Option TokenKind → Time → TokenItem → Bool
is_wanted kind now item = is_active item.state now && wanted kind item.state.kind

abbrev pub consumed_item : Option TokenKind → Time → TokenItem → TokenItem
consumed_item kind now item =
    if is_wanted kind now item then record item { state = mark_consumed now item.state } else item

-- A consumption in a context that has not ended returns the live state as it was before.
pub consume_state-result :
    (token : Text) (kind : Option TokenKind) (r : Reading) (s : MemoryStore)
    → r.ctx_err ≡ none
    → (consume_state token kind r s).0 ≡ ok (state_of (live_at s token r.now))
unfolding consume_state live_at
consume_state-result token kind r s c =
    rw c (elim (Option-cases (token_at s token)) [
      | inl e ↦ rw e
      | inr (item, e) ↦ rw e (ground arith)
    ])

-- A consumption in a context that has not ended marks the live item if its state is active and of the
-- kind, drops an expired one, leaves any other as it was, and changes no other token.
pub token_at-consume_state :
    (token : Text) (kind : Option TokenKind) (r : Reading) (s : MemoryStore) (k : Text)
    → r.ctx_err ≡ none
    → token_at (consume_state token kind r s).1 k
      ≡ ite
          (dec_text token k)
          (Option.map (consumed_item kind r.now) (live_at s token r.now))
          (token_at s k)
unfolding consume_state live_at
token_at-consume_state token kind r s k c = rw c (elim (Option-cases (token_at s token)) [
  | inl e ↦ rw e (elim (dec_text token k) [
    | yes p ↦
        subst (λ (q : Text). token_at s q ≡ none) p e
        ∙ sym (if_pos {C = Option TokenItem} (dec_text token k) p none (token_at s k))
    | no p ↦ sym (if_neg {C = Option TokenItem} (dec_text token k) p none (token_at s k))
  ])
  | inr (item, e) ↦ rw e (
      ground (
        arith,
        token_at-delete_token token k s,
        get-put dec_text token k (record item { state = mark_consumed r.now item.state }) s.tokens,
        ap (λ (t : Text). token_at s t),
      ))
])
