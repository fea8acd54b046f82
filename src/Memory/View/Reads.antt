-- ===== src/Memory/View/Reads.antt =====
-- storage/memory/store.go: the reads, consumptions, searches and sessions, seen through the view.
use mathlib.Core.Path.{subst}
use better_token.Base.{
  ◌≡◌, refl, sym, ◌∙◌, Option, none, some, arith, ite, inl, inr, Option-cases, Bool-cases, if_pos,
  if_neg,
}
use better_token.Text.{Text, dec_text}
use better_token.Errors.{err, unsupported_kind}
use better_token.State.{TokenKind}
use better_token.Store.{Reading}
use better_token.Memory.{TokenItem, MemoryStore, token_at, item_expired}
use better_token.Memory.Tokens.{get_state, consume_state, consume_state_of_kind}
use better_token.Memory.Index.{token_at-delete_token}
use better_token.Memory.Invariant.{reread_expired}
use better_token.Memory.Effects.{
  live_at, get_state-eq, consume_state-result, token_at-consume_state,
}
use better_token.Memory.View.{read, consumed, consumed_of_kind}
use better_token.Memory.View.Writes.{
  view_of, Refines, Refines-same, Refines-live, session_get, sessions-delete_token,
}

token_at-get_state :
    (token : Text) (r : Reading) (s : MemoryStore) (k : Text)
    → r.ctx_err ≡ none
    → token_at (get_state token r s).1 k
      ≡ ite (dec_text token k) (live_at s token r.now) (token_at s k)
unfolding get_state live_at
token_at-get_state token r s k c = rw c (elim (Option-cases (token_at s token)) [
  | inl e ↦ rw e (elim (dec_text token k) [
    | yes p ↦
        subst (λ (q : Text). token_at s q ≡ none) p e
        ∙ sym (if_pos {C = Option TokenItem} (dec_text token k) p none (token_at s k))
    | no p ↦ sym (if_neg {C = Option TokenItem} (dec_text token k) p none (token_at s k))
  ])
  | inr (item, e) ↦ rw e (elim (Bool-cases (item_expired item r.now)) [
    | inl x ↦ rw (x, reread_expired token r.now s e x) (token_at-delete_token token k s)
    | inr x ↦ rw x (elim (dec_text token k) [
      | yes p ↦
          subst (λ (q : Text). token_at s q ≡ some item) p e
          ∙ sym (if_pos {C = Option TokenItem} (dec_text token k) p (some item) (token_at s k))
      | no p ↦ sym (if_neg {C = Option TokenItem} (dec_text token k) p (some item) (token_at s k))
    ])
  ])
])

sessions-get_state :
    (token : Text) (r : Reading) (s : MemoryStore) → (get_state token r s).1.sessions ≡ s.sessions
unfolding get_state
sessions-get_state token r s = elim (Option-cases r.ctx_err) [
  | inr (x, c) ↦ rw c refl
  | inl c ↦ rw c (elim (Option-cases (token_at s token)) [
    | inl e ↦ rw e refl
    | inr (item, e) ↦ rw e (elim (Bool-cases (item_expired item r.now)) [
      | inl x ↦ rw (x, reread_expired token r.now s e x) (sessions-delete_token token s)
      | inr x ↦ rw x refl
    ])
  ])
]

pub get_state-Refines :
    (token : Text) (r : Reading) (s : MemoryStore)
    → Refines (get_state token r s) (read token r (view_of s))
unfolding live_at
get_state-Refines token r s = elim (Option-cases r.ctx_err) [
  | inr (x, c) ↦ unfold get_state in rw c (Refines-same (err x) s)
  | inl c ↦ Refines-live r s c (record {
    answer = get_state-eq token r s c;
    tokens = λ k. token_at-get_state token r s k c;
    sessions = λ k. session_get k (sessions-get_state token r s);
  })
]

sessions-consume_state :
    (token : Text) (kind : Option TokenKind) (r : Reading) (s : MemoryStore)
    → (consume_state token kind r s).1.sessions ≡ s.sessions
unfolding consume_state
sessions-consume_state token kind r s = ground (arith, sessions-delete_token token s)

pub consume_state-Refines :
    (token : Text) (kind : Option TokenKind) (r : Reading) (s : MemoryStore)
    → Refines (consume_state token kind r s) (consumed token kind r (view_of s))
unfolding live_at
consume_state-Refines token kind r s = elim (Option-cases r.ctx_err) [
  | inr (x, c) ↦ unfold consume_state in rw c (Refines-same (err x) s)
  | inl c ↦ Refines-live r s c (record {
    answer = consume_state-result token kind r s c;
    tokens = λ k. token_at-consume_state token kind r s k c;
    sessions = λ k. session_get k (sessions-consume_state token kind r s);
  })
]

pub consume_state_of_kind-Refines :
    (token : Text) (kind : TokenKind) (r : Reading) (s : MemoryStore)
    → Refines (consume_state_of_kind token kind r s) (consumed_of_kind token kind r (view_of s))
unfolding consume_state_of_kind
consume_state_of_kind-Refines token TokenKind.unset r s = Refines-same (err unsupported_kind) s
consume_state_of_kind-Refines token TokenKind.access r s =
    consume_state-Refines token (some TokenKind.access) r s
consume_state_of_kind-Refines token TokenKind.refresh r s =
    consume_state-Refines token (some TokenKind.refresh) r s
consume_state_of_kind-Refines token TokenKind.nonce r s =
    consume_state-Refines token (some TokenKind.nonce) r s
consume_state_of_kind-Refines token (TokenKind.other n) r s =
    consume_state-Refines token (some (TokenKind.other n)) r s
