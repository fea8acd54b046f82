-- ===== src/Memory/Spent.antt =====
-- storage/memory/store.go: a token that is gone or consumed stays so, through every call that does not
-- save it.
use better_token.Base.{
  ◌≡◌, refl, Bool, true, false, Option, none, some, List, [], ◌∷◌, arith, inl, inr, Option-cases,
  Bool-cases, if_pos, if_neg, if◌then◌else◌,
}
use better_token.Base.Map.{get-put}
use better_token.Text.{Text, dec_text}
use better_token.Time.{Time, Duration}
use better_token.State.{
  LoginSubject, normalize_subject, TokenKind, TokenStatus, TokenState, normalize_state,
  mark_consumed,
}
use better_token.Session.{Session}
use better_token.Store.{Reading}
use better_token.Memory.{TokenItem, MemoryStore, item_expired, token_at, delete_token}
use better_token.Memory.Tokens.{
  install, save_state, compare_and_swap, get_state, put_state, consume_state, consume_state_of_kind,
  delete_state, find_one, find_all, find_states, drop_if_empty, indexed, delete_all, delete_states,
}
use better_token.Memory.Sessions.{
  save_session, ensure_session, get_session, reread_session, delete_session,
}
use better_token.Memory.Index.{token_at-delete_token}
use better_token.Memory.Invariant.{Ends, ends_rules, token_at-install, reread_expired}
use better_token.Memory.Subject.{token_at-forget, token_at-delete_all}
use better_token.Memory.Calls.{
  Call, save, swap, get, consume, delete, consume_of_kind, find, delete_of, save_session_of, ensure,
  get_session_of, delete_session_of, perform, perform_all,
}

abbrev pub Spent : Option TokenItem → Type 0
Spent none = Unit
Spent (some item) = item.state.status ≡ TokenStatus.consumed

-- The token is gone, or its state is consumed.
pub record IsSpent (token : Text) (s : MemoryStore) : Type 0 where
  pub spent : Spent (token_at s token)

Spent-ite : (b : Bool) (o : Option TokenItem) → Spent o → Spent (if b then none else o)
Spent-ite true o h = tt
Spent-ite false o h = h

module _ (token : Text) where
  delete_token-IsSpent :
      (k : Text) {s : MemoryStore} → IsSpent token s → IsSpent token (delete_token k s)
  delete_token-IsSpent k {s} h = record {
    spent = rw (token_at-delete_token k token s) (elim (dec_text k token) [
      | yes p ↦ rw (if_pos (dec_text k token) p) tt
      | no p ↦ rw (if_neg (dec_text k token) p) h.spent
    ]);
  }

  install-IsSpent :
      (state : TokenState) (expires : Option Time) {s : MemoryStore}
      → (state.token ≡ token → ⊥)
      → IsSpent token s
      → IsSpent token (install state expires s)
  install-IsSpent state expires {s} ne h = record {
    spent =
        rw (token_at-install state expires s token, if_neg (dec_text state.token token) ne) h.spent;
  }

  put_state-IsSpent :
      (k : Text) (item : TokenItem) (now : Time) {s : MemoryStore}
      → IsSpent token s
      → IsSpent token (put_state k item (mark_consumed now item.state) s)
  unfolding mark_consumed
  put_state-IsSpent k item now {s} h = record {
    spent = rw get-put (elim (dec_text k token) [
      | yes p ↦ rw (if_pos (dec_text k token) p) refl
      | no p ↦ rw (if_neg (dec_text k token) p) h.spent
    ]);
  }

  -- What changes no token.
  tokens-IsSpent :
      {s : MemoryStore} (u : MemoryStore) → u.tokens ≡ s.tokens → IsSpent token s → IsSpent token u
  tokens-IsSpent u e h = record { spent = rw e h.spent }

  save_state-IsSpent :
      (expected : Option TokenState) (state : TokenState) (ttl : Duration) (r : Reading)
      {s : MemoryStore}
      → (state.token ≡ token → ⊥)
      → IsSpent token s
      → Ends (IsSpent token) (save_state expected (some state) ttl r s)
  unfolding save_state normalize_state
  save_state-IsSpent expected state ttl r ne h =
      search (ends_rules, install-IsSpent (normalize_state state) _ ne h) depth 8

  swap-IsSpent :
      (expected next : TokenState) (ttl : Duration) (r : Reading) {s : MemoryStore}
      → (next.token ≡ token → ⊥)
      → IsSpent token s
      → Ends (IsSpent token) (compare_and_swap (some expected) (some next) ttl r s)
  unfolding compare_and_swap
  swap-IsSpent expected next ttl r {s} ne h = elim (dec_text expected.token next.token) [
    | yes p ↦
        rw (if_pos (dec_text expected.token next.token) p)
          (record { at = (save_state-IsSpent (some expected) next ttl r ne h).at })
    | no p ↦ rw (if_neg (dec_text expected.token next.token) p) (record { at = h })
  ]

  get_state-IsSpent :
      (k : Text) (r : Reading) {s : MemoryStore}
      → IsSpent token s
      → Ends (IsSpent token) (get_state k r s)
  unfolding get_state
  get_state-IsSpent k r {s} h = elim (Option-cases (token_at s k)) [
    | inl e ↦ rw e (search ends_rules)
    | inr (item, e) ↦ rw e (elim (Bool-cases (item_expired item r.now)) [
      | inl x ↦ rw (x, reread_expired k r.now s e x) (search (ends_rules, delete_token-IsSpent k h))
      | inr x ↦ rw x (search ends_rules)
    ])
  ]

  consume_state-IsSpent :
      (k : Text) (kind : Option TokenKind) (r : Reading) {s : MemoryStore}
      → IsSpent token s
      → Ends (IsSpent token) (consume_state k kind r s)
  unfolding consume_state
  consume_state-IsSpent k kind r {s} h = elim (Option-cases (token_at s k)) [
    | inl e ↦ rw e (search ends_rules)
    | inr (item, e) ↦
        rw e
          (search (ends_rules, delete_token-IsSpent k h, put_state-IsSpent k item r.now h) depth 8)
  ]

  find_one-IsSpent :
      (now : Time) (kinds : List TokenKind) (key : LoginSubject) (k : Text) {s : MemoryStore}
      → IsSpent token s
      → Ends (IsSpent token) (find_one now kinds key k s)
  unfolding find_one
  find_one-IsSpent now kinds key k {s} h = elim (Option-cases (token_at s k)) [
    | inl e ↦ rw (e, find_one) (record { at = record { spent = rw token_at-forget h.spent } })
    | inr (item, e) ↦ rw (e, find_one) (search (ends_rules, delete_token-IsSpent k h))
  ]

  find_all-IsSpent :
      (now : Time) (kinds : List TokenKind) (key : LoginSubject) (ks : List Text) {s : MemoryStore}
      → IsSpent token s
      → Ends (IsSpent token) (find_all now kinds key ks s)
  unfolding find_all
  find_all-IsSpent now kinds key [] h = record { at = h }
  find_all-IsSpent now kinds key (k ∷ ks) h = record {
    at = (find_all-IsSpent now kinds key ks (find_one-IsSpent now kinds key k h).at).at;
  }

  drop_if_empty-IsSpent :
      (key : LoginSubject) {s : MemoryStore} → IsSpent token s → IsSpent token (drop_if_empty key s)
  drop_if_empty-IsSpent key {s} h = tokens-IsSpent (drop_if_empty key s) (ground arith) h

  delete_all-IsSpent :
      (kinds : List TokenKind) (ks : List Text) {s : MemoryStore}
      → IsSpent token s
      → IsSpent token (delete_all kinds ks s)
  delete_all-IsSpent kinds ks {s} h = record {
    spent = rw token_at-delete_all (Spent-ite _ (token_at s token) h.spent);
  }

  session-IsSpent :
      {A : Type 0} (out : A × MemoryStore) {s : MemoryStore}
      → out.1.tokens ≡ s.tokens
      → IsSpent token s
      → IsSpent token out.1
  session-IsSpent out e h = tokens-IsSpent out.1 e h

  -- A call that does not save the token.
  abbrev Spares : Call → Type 0
  Spares (save none ttl) = Unit
  Spares (save (some state) ttl) = state.token ≡ token → ⊥
  Spares (swap expected next ttl) = next.token ≡ token → ⊥
  Spares call = Unit

  tokens-get_session :
      (subject : LoginSubject) (r : Reading) (s : MemoryStore)
      → (get_session subject r s).1.tokens ≡ s.tokens
  unfolding get_session reread_session
  tokens-get_session subject r s = ground arith

  pub delete_state-IsSpent :
      (k : Text) (r : Reading) {s : MemoryStore}
      → IsSpent token s
      → Ends (IsSpent token) (delete_state k r s)
  unfolding delete_state
  delete_state-IsSpent k r h = search (ends_rules, delete_token-IsSpent k h)

  pub find_states-IsSpent :
      (subject : LoginSubject) (kinds : List TokenKind) (r : Reading) {s : MemoryStore}
      → IsSpent token s
      → Ends (IsSpent token) (find_states subject kinds r s)
  unfolding find_states
  find_states-IsSpent subject kinds r {s} h =
      let key = normalize_subject subject in
      search (
        ends_rules,
        drop_if_empty-IsSpent key (find_all-IsSpent r.now kinds key (indexed key s) h).at,
      )

  delete_states-IsSpent :
      (subject : LoginSubject) (kinds : List TokenKind) (r : Reading) {s : MemoryStore}
      → IsSpent token s
      → Ends (IsSpent token) (delete_states subject kinds r s)
  unfolding delete_states
  delete_states-IsSpent subject kinds r h = search (ends_rules, delete_all-IsSpent kinds _ h)

  tokens-save_session :
      (session : Option Session) (ttl : Duration) (r : Reading) (s : MemoryStore)
      → (save_session session ttl r s).1.tokens ≡ s.tokens
  unfolding save_session
  tokens-save_session none ttl r s = ground arith
  tokens-save_session (some session) ttl r s = ground arith

  perform-IsSpent :
      (call : Call) (r : Reading) {s : MemoryStore}
      → Spares call
      → IsSpent token s
      → IsSpent token (perform call r s)
  unfolding perform save_state ensure_session delete_session consume_state_of_kind
  perform-IsSpent (save none ttl) r {s} ne h = tokens-IsSpent _ (ground arith) h
  perform-IsSpent (save (some state) ttl) r ne h = (save_state-IsSpent none state ttl r ne h).at
  perform-IsSpent (swap expected next ttl) r ne h = (swap-IsSpent expected next ttl r ne h).at
  perform-IsSpent (get k) r ne h = (get_state-IsSpent k r h).at
  perform-IsSpent (consume k) r ne h = (consume_state-IsSpent k none r h).at
  perform-IsSpent (delete k) r ne h = (delete_state-IsSpent k r h).at
  perform-IsSpent (consume_of_kind k TokenKind.unset) r ne h = h
  perform-IsSpent (consume_of_kind k kind) r ne h = (consume_state-IsSpent k (some kind) r h).at
  perform-IsSpent (find subject kinds) r ne h = (find_states-IsSpent subject kinds r h).at
  perform-IsSpent (delete_of subject kinds) r ne h = (delete_states-IsSpent subject kinds r h).at
  perform-IsSpent (save_session_of session ttl) r {s} ne h =
      tokens-IsSpent _ (tokens-save_session session ttl r s) h
  perform-IsSpent (ensure subject ttl) r {s} ne h = tokens-IsSpent _ (ground arith) h
  perform-IsSpent (get_session_of subject) r {s} ne h =
      tokens-IsSpent _ (tokens-get_session subject r s) h
  perform-IsSpent (delete_session_of subject) r {s} ne h = tokens-IsSpent _ (ground arith) h

  -- Every call of a sequence spares the token.
  abbrev pub SparesAll : List (Call × Reading) → Type 0
  SparesAll [] = Unit
  SparesAll ((call, r) ∷ calls) = Spares call × SparesAll calls

  pub perform_all-IsSpent :
      (calls : List (Call × Reading)) {s : MemoryStore}
      → SparesAll calls
      → IsSpent token s
      → IsSpent token (perform_all calls s)
  unfolding perform_all
  perform_all-IsSpent [] ne h = h
  perform_all-IsSpent ((call, r) ∷ calls) ne h =
      perform_all-IsSpent calls ne.1 (perform-IsSpent call r ne.0 h)
