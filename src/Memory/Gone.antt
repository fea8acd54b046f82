-- ===== src/Memory/Gone.antt =====
-- storage/memory/store.go: what a deletion leaves, and what a read finds.
use better_token.Base.{◌≡◌, refl, sym, ap, ◌∙◌, Option, none, some, arith, if_pos}
use better_token.Text.{Text, dec_text}
use better_token.Errors.{ok}
use better_token.State.{TokenStatus, TokenState}
use better_token.Store.{Reading}
use better_token.Memory.{TokenItem, MemoryStore, token_at}
use better_token.Memory.Index.{IsConsistent, token_at-delete_token}
use better_token.Memory.Tokens.{get_state, delete_state}
use better_token.Memory.Spent.{IsSpent}
use better_token.Memory.Effects.{live_at, state_of, get_state-eq}
use better_token.Memory.Search.{of_live}
use better_token.Memory.Once.{Spent-live}

ctx_of_get :
    (token : Text) (r : Reading) (s : MemoryStore) {found : Option TokenState}
    → (get_state token r s).0 ≡ ok found
    → r.ctx_err ≡ none
unfolding get_state
ctx_of_get token r s e = ground arith

-- What a read finds of a spent token is consumed.
pub status-get_state :
    (token : Text) (r : Reading) (s : MemoryStore) {found : TokenState}
    → IsSpent token s
    → (get_state token r s).0 ≡ ok (some found)
    → found.status ≡ TokenStatus.consumed
unfolding live_at
status-get_state token r s {found} h e =
    go (live_at s token r.now) refl (sym (get_state-eq token r s (ctx_of_get token r s e)) ∙ e)
  where
    go :
        (o : Option TokenItem)
        → live_at s token r.now ≡ o
        → ok (state_of (live_at s token r.now)) ≡ ok (some found)
        → found.status ≡ TokenStatus.consumed
    go none l x = absurd (let f = rw l at x in cc)
    go (some item) l x =
        let f = rw l at x in
        let p : item.state ≡ found = cc in
        ap (λ (s : TokenState). s.status) (sym p) ∙ Spent-live (token_at s token) r.now h.spent l

ctx_of_delete :
    (token : Text) (r : Reading) (s : MemoryStore)
    → (delete_state token r s).0 ≡ ok tt
    → r.ctx_err ≡ none
unfolding delete_state
ctx_of_delete token r s e = ground arith

pub delete_state-gone :
    (token : Text) (r : Reading) (s : MemoryStore)
    → (delete_state token r s).0 ≡ ok tt
    → IsSpent token (delete_state token r s).1
unfolding delete_state
delete_state-gone token r s e = rw (ctx_of_delete token r s e) (record {
  spent = rw (token_at-delete_token token token s, if_pos (dec_text token token) refl) tt;
})

pub get_state-named :
    (token : Text) (r : Reading) (s : MemoryStore) {found : TokenState}
    → IsConsistent s
    → (get_state token r s).0 ≡ ok (some found)
    → found.token ≡ token
unfolding live_at
get_state-named token r s {found} h e =
    go (live_at s token r.now) refl (sym (get_state-eq token r s (ctx_of_get token r s e)) ∙ e)
  where
    go :
        (o : Option TokenItem)
        → live_at s token r.now ≡ o
        → ok (state_of (live_at s token r.now)) ≡ ok (some found)
        → found.token ≡ token
    go none l x = absurd (let f = rw l at x in cc)
    go (some item) l x =
        let f = rw l at x in
        let p : item.state ≡ found = cc in
        ap (λ (s : TokenState). s.token) (sym p) ∙ h.named token item (of_live s token r.now l)
