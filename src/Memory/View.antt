-- ===== src/Memory/View.antt =====
-- core/store.go and storage/memory/store.go: an abstract store, which is a function of the tokens and one
-- of the subjects, without an index and without an order, and what each call of the ports answers on it,
-- in one clause. A token that has expired counts as not stored, as the stores of the repository have
-- it, also for a consumption: there the comment on ConsumeTokenState in core/store.go promises the
-- snapshot of the expired state, and this description follows the store and not that comment.
pub mod Writes
pub mod Reads
pub mod Searches
pub mod Refines
use better_token.Base.{
  Bool, true, false, not, ◌&&◌, ◌||◌, Option, none, some, List, [], ◌∷◌, ite, is_nil, if◌then◌else◌,
}
use better_token.Text.{Text, dec_text}
use better_token.Time.{Time, Duration}
use better_token.Errors.{
  Result, ok, err, empty_token, empty_login_id, token_invalid, unsupported_kind, empty_session_id,
}
use better_token.State.{
  LoginSubject, dec_subject, normalize_subject, is_zero_subject, TokenKind, TokenState, dec_state,
  normalize_state, effective_expires_at, deadline,
}
use better_token.Session.{Session, clone_session, new_session_for_subject}
use better_token.Store.{Reading}
use better_token.Memory.{TokenItem, SessionItem, item_expired, session_expired, with_context}
use better_token.Memory.Tokens.{is_nonce_kind}
use better_token.Memory.Effects.{unexpired, state_of, equals, consumed_item, saved_item}
use better_token.Memory.Subject.{is_selected}
use better_token.Memory.Calls.{
  Call, save, swap, get, consume, delete, consume_of_kind, find, delete_of, save_session_of, ensure,
  get_session_of, delete_session_of,
}

pub record View : Type 0 where
  pub token : Text → Option TokenItem
  pub session : LoginSubject → Option SessionItem

abbrev pub set_token : Text → Option TokenItem → View → View
set_token token item v = record v { token = λ k. ite (dec_text token k) item (v.token k) }

abbrev pub set_session : LoginSubject → Option SessionItem → View → View
set_session key item v = record v { session = λ k. ite (dec_subject key k) item (v.session k) }

-- What a call answers. What a search has found is a set: the test for a state.
pub data Answer : Type 0 where
  done : Result (Unit {0}) → Answer
  swap_done : Result Bool → Answer
  given : Result (Option TokenState) → Answer
  found : Result (TokenState → Bool) → Answer
  session_given : Result (Option Session) → Answer

abbrev pub expected_at : Option TokenState → Time → Option TokenItem → Bool
expected_at none now old = true
expected_at (some expected) now old = equals (state_of (unexpired now old)) expected

-- A save, of any state or only over an expected one
abbrev pub saved :
    Option TokenState → TokenState → Duration → Reading → View → Result (Unit {0}) × View
saved expected state ttl r v = with_context r v (
    if is_nil state.token
    then (err empty_token, v)
    else if is_nil (normalize_state state).login_id
        && not (is_nonce_kind (normalize_state state).kind)
    then (err empty_login_id, v)
    else if expected_at expected r.later (v.token state.token)
    then (ok tt, set_token state.token (some (saved_item state ttl r.now)) v)
    else (err token_invalid, v))

abbrev pub as_swap : Result (Unit {0}) → Result Bool
as_swap (ok u) = ok true
as_swap (err token_invalid) = ok false
as_swap (err e) = err e

abbrev pub swapped : TokenState → TokenState → Duration → Reading → View → Result Bool × View
swapped expected next ttl r v =
    ite (dec_text expected.token next.token)
      (let out = saved (some expected) next ttl r v in (as_swap out.0, out.1))
      (err token_invalid, v)

-- A read drops a token that has expired.
abbrev pub read : Text → Reading → View → Result (Option TokenState) × View
read token r v = with_context r v (
  ok (state_of (unexpired r.now (v.token token))),
  set_token token (unexpired r.now (v.token token)) v,
)

-- A consumption answers the live state as it was, and marks it if it is active and of the kind. An
-- expired token is dropped and answered as a missing one; the comment on ConsumeTokenState would have
-- its snapshot answered.
abbrev pub consumed : Text → Option TokenKind → Reading → View → Result (Option TokenState) × View
consumed token kind r v =
    let live = unexpired r.now (v.token token) in
    with_context r v (ok (state_of live), set_token token (marked kind r.now live) v)
  where
    marked : Option TokenKind → Time → Option TokenItem → Option TokenItem
    marked kind now none = none
    marked kind now (some item) = some (consumed_item kind now item)

abbrev pub consumed_of_kind : Text → TokenKind → Reading → View → Result (Option TokenState) × View
consumed_of_kind token TokenKind.unset r v = (err unsupported_kind, v)
consumed_of_kind token kind r v = consumed token (some kind) r v

-- A search finds the live tokens of the subject that are of the kinds, and drops the subject's expired ones.
abbrev pub is_of : LoginSubject → Option TokenItem → Bool
is_of key item = is_selected key [] item

abbrev pub swept : LoginSubject → Time → Option TokenItem → Option TokenItem
swept key now item = if is_of key item then unexpired now item else item

abbrev pub hits : LoginSubject → List TokenKind → Time → View → TokenState → Bool
hits key kinds now v state =
    let live = unexpired now (v.token state.token) in
    is_selected key kinds live && equals (state_of live) state

abbrev pub searched :
    LoginSubject → List TokenKind → Reading → View → Result (TokenState → Bool) × View
searched subject kinds r v =
    let key = normalize_subject subject in
    with_context r v
      (ok (hits key kinds r.now v), record v { token = λ k. swept key r.now (v.token k) })

abbrev pub deleted_of : LoginSubject → List TokenKind → Reading → View → Result (Unit {0}) × View
deleted_of subject kinds r v =
    let key = normalize_subject subject in
    with_context r v (
      ok tt,
      record v { token = λ k. if is_selected key kinds (v.token k) then none else v.token k },
    )

-- Sessions
abbrev pub unexpired_session : Time → Option SessionItem → Option SessionItem
unexpired_session now none = none
unexpired_session now (some item) = if session_expired item now then none else some item

abbrev pub session_of : Option SessionItem → Option Session
session_of none = none
session_of (some item) = some (clone_session item.session)

abbrev pub session_or_new : LoginSubject → Option SessionItem → Session
session_or_new subject none = new_session_for_subject subject
session_or_new subject (some item) = item.session

abbrev pub saved_session : Session → Duration → Reading → View → Result (Unit {0}) × View
saved_session session ttl r v =
    let key = normalize_subject session.subject in
    with_context r v (
      if is_zero_subject key then (err empty_session_id, v) else (
        ok tt,
        set_session key
            (some (record { session = clone_session session; expires_at = deadline r.now ttl })) v,
      ))

abbrev pub ensured : LoginSubject → Duration → Reading → View → Result (Unit {0}) × View
ensured subject ttl r v =
    let key = normalize_subject subject in
    let session = session_or_new key (unexpired_session r.now (v.session key)) in
    with_context r v (
      if is_zero_subject key then (err empty_session_id, v) else (
        ok tt,
        set_session key (some (record { session = session; expires_at = deadline r.now ttl })) v,
      ))

abbrev pub read_session : LoginSubject → Reading → View → Result (Option Session) × View
read_session subject r v =
    let key = normalize_subject subject in
    let live = unexpired_session r.now (v.session key) in
    with_context r v (ok (session_of live), set_session key live v)

-- Every call on the view
abbrev pub answered {ℓ} : {A : Type ℓ} → (A → Answer) → A × View → Answer × View
answered f (a, v) = (f a, v)

unfoldable pub respond : Call → Reading → View → Answer × View
respond (save none ttl) r v = answered done (with_context r v (err empty_token, v))
respond (save (some state) ttl) r v = answered done (saved none state ttl r v)
respond (swap expected next ttl) r v = answered swap_done (swapped expected next ttl r v)
respond (get token) r v = answered given (read token r v)
respond (consume token) r v = answered given (consumed token none r v)
respond (delete token) r v = answered done (with_context r v (ok tt, set_token token none v))
respond (consume_of_kind token kind) r v = answered given (consumed_of_kind token kind r v)
respond (find subject kinds) r v = answered found (searched subject kinds r v)
respond (delete_of subject kinds) r v = answered done (deleted_of subject kinds r v)
respond (save_session_of none ttl) r v = answered done (with_context r v (err empty_session_id, v))
respond (save_session_of (some session) ttl) r v = answered done (saved_session session ttl r v)
respond (ensure subject ttl) r v = answered done (ensured subject ttl r v)
respond (get_session_of subject) r v = answered session_given (read_session subject r v)
respond (delete_session_of subject) r v =
    answered done (with_context r v (ok tt, set_session (normalize_subject subject) none v))
