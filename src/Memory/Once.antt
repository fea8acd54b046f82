-- ===== src/Memory/Once.antt =====
-- storage/memory/store.go: one-time use. Once a call has consumed a token, no later call is handed the
-- token as active, until the token is saved anew.
use better_token.Base.{◌≡◌, refl, sym, ◌∙◌, true, Option, none, some, List, arith, if_pos}
use better_token.Text.{Text, dec_text}
use better_token.Time.{Time}
use better_token.Errors.{ok}
use better_token.State.{TokenKind, TokenStatus, TokenState, is_active, mark_consumed}
use better_token.Store.{Reading}
use better_token.Memory.{TokenItem, MemoryStore, token_at}
use better_token.Memory.Tokens.{wanted, consume_state}
use better_token.Memory.Effects.{
  live_at, unexpired, state_of, is_wanted, token_at-consume_state, consume_state-result,
}
use better_token.Memory.Calls.{Call, perform_all}
use better_token.Memory.Spent.{Spent, IsSpent, SparesAll, perform_all-IsSpent}

ctx_of_consume :
    (token : Text) (kind : Option TokenKind) (r : Reading) (s : MemoryStore)
    {found : Option TokenState}
    → (consume_state token kind r s).0 ≡ ok found
    → r.ctx_err ≡ none
unfolding consume_state
ctx_of_consume token kind r s e = ground arith

-- What was handed out is the state of the live item.
pub live_of_consume :
    (token : Text) (kind : Option TokenKind) (r : Reading) (s : MemoryStore) {state : TokenState}
    → (consume_state token kind r s).0 ≡ ok (some state)
    → (item : TokenItem) × (live_at s token r.now ≡ some item) × (item.state ≡ state)
live_of_consume token kind r s {state} e =
    go (live_at s token r.now) refl
      (sym (consume_state-result token kind r s (ctx_of_consume token kind r s e)) ∙ e)
  where
    go :
        (o : Option TokenItem)
        → live_at s token r.now ≡ o
        → ok (state_of (live_at s token r.now)) ≡ ok (some state)
        → (item : TokenItem) × (live_at s token r.now ≡ some item) × (item.state ≡ state)
    go none l x = absurd (cc (rw l at x))
    go (some item) l x = (item, l, cc (rw l at x))

-- What a successful consumption leaves.
consume_state-spends :
    (token : Text) (kind : Option TokenKind) (r : Reading) (s : MemoryStore) {state : TokenState}
    → (consume_state token kind r s).0 ≡ ok (some state)
    → is_active state r.now ≡ true
    → wanted kind state.kind ≡ true
    → IsSpent token (consume_state token kind r s).1
unfolding mark_consumed
consume_state-spends token kind r s e a k =
    let (item, l, h) = live_of_consume token kind r s e in
    let w : is_wanted kind r.now item ≡ true = rw (h, a) k in
    record {
      spent = rw (
        token_at-consume_state token kind r s token (ctx_of_consume token kind r s e),
        if_pos (dec_text token token) refl,
        l,
        w,
      );
    }

-- What is live of a spent token is consumed.
pub Spent-live :
    (o : Option TokenItem) (now : Time) {item : TokenItem}
    → Spent o
    → unexpired now o ≡ some item
    → item.state.status ≡ TokenStatus.consumed
Spent-live none now h l = cc
Spent-live (some found) now h l = ground arith

spent-consume_state :
    (token : Text) (kind : Option TokenKind) (r : Reading) (s : MemoryStore) {state : TokenState}
    → IsSpent token s
    → (consume_state token kind r s).0 ≡ ok (some state)
    → state.status ≡ TokenStatus.consumed
unfolding live_at
spent-consume_state token kind r s h e =
    let (item, l, p) = live_of_consume token kind r s e in
    rw (← p) (Spent-live (token_at s token) r.now h.spent l)

-- One-time use. A call that consumes a token and is handed an active state of its kind is the last
-- that is: whatever calls follow, from any clients and at any times, as long as none of them saves
-- the token, a later consumption of the token that is handed a state at all is handed a consumed one.
pub consume_once :
    (token : Text) (kind kind' : Option TokenKind) (r r' : Reading) (s : MemoryStore)
    (calls : List (Call × Reading)) {state state' : TokenState}
    → (consume_state token kind r s).0 ≡ ok (some state)
    → is_active state r.now ≡ true
    → wanted kind state.kind ≡ true
    → SparesAll token calls
    → (consume_state token kind' r' (perform_all calls (consume_state token kind r s).1)).0
      ≡ ok (some state')
    → state'.status ≡ TokenStatus.consumed
consume_once token kind kind' r r' s calls e a k spares e' =
    spent-consume_state token kind' r' _
      (perform_all-IsSpent token calls spares (consume_state-spends token kind r s e a k)) e'
