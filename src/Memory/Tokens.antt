-- ===== src/Memory/Tokens.antt =====
-- storage/memory/store.go: the operations on tokens.
use better_token.Base.{
  Bool, true, false, not, ◌&&◌, Option, none, some, List, [], ◌∷◌, ◌++◌, ite, is_nil, if◌then◌else◌,
}
use better_token.Base.Map
use better_token.Base.Map.{keys}
use better_token.Text.{Text, dec_text}
use better_token.Time.{Time, Duration}
use better_token.Errors.{
  Result, ok, err, empty_token, empty_login_id, token_invalid, unsupported_kind,
}
use better_token.State.{
  LoginSubject, dec_subject, normalize_subject, TokenKind, dec_kind, TokenState, dec_state,
  normalize_state, effective_expires_at, is_active, subject_of, mark_consumed, match_kind,
}
use better_token.Store.{Op}
use better_token.Memory.{
  TokenItem, MemoryStore, item_expired, token_at, index_at, add_index, remove_index, delete_token,
  with_context,
}

-- The test of `saveTokenState` on the old item, where a state is expected.
unfoldable pub as_expected : Option TokenState → Time → Option TokenItem → Bool
unfolding item_expired dec_state
as_expected none now old = true
as_expected (some expected) now none = false
as_expected (some expected) now (some old) =
    not (item_expired old now) && ite (dec_state old.state expected) true false

-- The writes of `saveTokenState`, under the lock.
unfoldable pub unindex_old : Option TokenItem → Text → MemoryStore → MemoryStore
unfolding remove_index
unindex_old none token s = s
unindex_old (some old) token s = remove_index (subject_of old.state) token s

unfoldable pub install : TokenState → Option Time → MemoryStore → MemoryStore
unfolding unindex_old add_index
install state expires s =
    add_index (subject_of state) state.token
      (record (unindex_old (token_at s state.token) state.token s) {
        tokens =
            Map.put dec_text state.token (record { state = state; expires_at = expires }) s.tokens;
      })

-- Who may be saved: an access or refresh token has an owner.
abbrev pub is_nonce_kind : TokenKind → Bool
is_nonce_kind TokenKind.nonce = true
is_nonce_kind k = false

unfoldable pub save_state : Option TokenState → Option TokenState → Duration → Op MemoryStore Unit
unfolding normalize_state effective_expires_at as_expected install
save_state expected none ttl r s = with_context r s (err empty_token, s)
save_state expected (some state) ttl r s =
    let clone = normalize_state state in
    with_context r s (
      if is_nil state.token
      then (err empty_token, s)
      else if is_nil clone.login_id && not (is_nonce_kind clone.kind)
      then (err empty_login_id, s)
      else if as_expected expected r.later (token_at s clone.token)
      then (ok tt, install clone (effective_expires_at clone.expires_at r.now ttl) s)
      else (err token_invalid, s))

-- CompareAndSwapTokenState: a state that is not as expected is `false`, and no error.
abbrev pub swapped : Result (Unit {0}) → Result Bool
swapped (ok u) = ok true
swapped (err token_invalid) = ok false
swapped (err e) = err e

abbrev pub both : Option TokenState → Option TokenState → Option (TokenState × TokenState)
both (some a) (some b) = some (a, b)
both _ _ = none

unfoldable pub compare_and_swap :
    Option TokenState → Option TokenState → Duration → Op MemoryStore Bool
unfolding save_state dec_text
compare_and_swap expected next ttl r s = elim (both expected next) [
  | none ↦ (err token_invalid, s)
  | some (e, n) ↦
      ite (dec_text e.token n.token)
        (let saved = save_state (some e) (some n) ttl r s in (swapped saved.0, saved.1))
        (err token_invalid, s)
]

-- GetTokenState: the read under the read lock, and under the write lock the second look that
-- drops an expired item.
unfoldable pub reread : Text → Time → MemoryStore → Option TokenState × MemoryStore
unfolding item_expired delete_token
reread token now s = elim (token_at s token) [
  | none ↦ (none, s)
  | some item ↦ if item_expired item now then (none, delete_token token s) else (some item.state, s)
]

unfoldable pub get_state : Text → Op MemoryStore (Option TokenState)
unfolding item_expired reread
get_state token r s = with_context r s (elim (token_at s token) [
  | none ↦ (ok none, s)
  | some item ↦
      if item_expired item r.now
      then (let again = reread token r.now s in (ok again.0, again.1))
      else (ok (some item.state), s)
])

-- consumeTokenState, for any kind or for one: the snapshot is that before the change.
abbrev pub wanted : Option TokenKind → TokenKind → Bool
wanted none kind = true
wanted (some k) kind = ite (dec_kind kind k) true false

abbrev pub put_state : Text → TokenItem → TokenState → MemoryStore → MemoryStore
put_state token item state s = record s {
  tokens = Map.put dec_text token (record item { state = state }) s.tokens;
}

unfoldable pub consume_state : Text → Option TokenKind → Op MemoryStore (Option TokenState)
unfolding item_expired delete_token is_active mark_consumed dec_kind
consume_state token kind r s = with_context r s (elim (token_at s token) [
  | none ↦ (ok none, s)
  | some item ↦
      if item_expired item r.now
      then (ok none, delete_token token s)
      else if is_active item.state r.now && wanted kind item.state.kind
      then (ok (some item.state), put_state token item (mark_consumed r.now item.state) s)
      else (ok (some item.state), s)
])

-- ConsumeTokenStateOfKind refuses the empty kind.
unfoldable pub consume_state_of_kind : Text → TokenKind → Op MemoryStore (Option TokenState)
unfolding consume_state
consume_state_of_kind token TokenKind.unset r s = (err unsupported_kind, s)
consume_state_of_kind token kind r s = consume_state token (some kind) r s

-- DeleteTokenState
unfoldable pub delete_state : Text → Op MemoryStore Unit
unfolding delete_token
delete_state token r s = with_context r s (ok tt, delete_token token s)

-- FindTokenStates: one token of the index, which may be dropped, be of another kind, or be found.
abbrev pub forget : LoginSubject → Text → MemoryStore → MemoryStore
forget key token s = elim (index_at s key) [
  | none ↦ s
  | some tokens ↦ record s {
    indexes = Map.put dec_subject key (Map.delete dec_text token tokens) s.indexes;
  }
]

unfoldable pub find_one :
    Time → List TokenKind → LoginSubject → Text → MemoryStore → List TokenState × MemoryStore
unfolding item_expired delete_token match_kind
find_one now kinds key token s = elim (token_at s token) [
  | none ↦ ([], forget key token s)
  | some item ↦
      if item_expired item now
      then ([], delete_token token s)
      else if match_kind item.state.kind kinds
      then (item.state ∷ [], s)
      else ([], s)
]

-- `range tokens`: Go walks the keys that the set has at the start, less those deleted before
-- their turn, and each round deletes its own key at most.
unfoldable pub find_all :
    Time → List TokenKind → LoginSubject → List Text → MemoryStore → List TokenState × MemoryStore
unfolding find_one
find_all now kinds key [] s = ([], s)
find_all now kinds key (token ∷ rest) s =
    let one = find_one now kinds key token s in
    let others = find_all now kinds key rest one.1 in (one.0 ++ others.0, others.1)

abbrev pub indexed : LoginSubject → MemoryStore → List Text
indexed key s = elim (index_at s key) [ none ↦ [] | some tokens ↦ keys tokens ]

abbrev pub drop_if_empty : LoginSubject → MemoryStore → MemoryStore
drop_if_empty key s =
    if is_nil (indexed key s)
    then record s { indexes = Map.delete dec_subject key s.indexes }
    else s

unfoldable pub find_states : LoginSubject → List TokenKind → Op MemoryStore (List TokenState)
unfolding normalize_subject find_all
find_states subject kinds r s =
    let key = normalize_subject subject in
    let found = find_all r.now kinds key (indexed key s) s in
    with_context r s (ok found.0, drop_if_empty key found.1)

-- DeleteTokenStates
unfoldable pub delete_one : List TokenKind → Text → MemoryStore → MemoryStore
unfolding delete_token match_kind
delete_one kinds token s = elim (token_at s token) [
  | none ↦ s
  | some item ↦ if match_kind item.state.kind kinds then delete_token token s else s
]

unfoldable pub delete_all : List TokenKind → List Text → MemoryStore → MemoryStore
unfolding delete_one
delete_all kinds [] s = s
delete_all kinds (token ∷ rest) s = delete_all kinds rest (delete_one kinds token s)

unfoldable pub delete_states : LoginSubject → List TokenKind → Op MemoryStore Unit
unfolding normalize_subject delete_all
delete_states subject kinds r s =
    with_context r s (ok tt, delete_all kinds (indexed (normalize_subject subject) s) s)
