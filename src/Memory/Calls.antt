-- ===== src/Memory/Calls.antt =====
-- Sequences of calls on the store in memory. The lock makes each call one step, so any number of
-- clients amount to one sequence of their calls.
use better_token.Base.{
  ◌≡◌, refl, true, Option, none, some, List, [], ◌∷◌, inl, inr, Option-cases, Bool-cases,
}
use better_token.Base.Map
use better_token.Base.Map.{Map}
use better_token.Text.{Text}
use better_token.Time.{Time, Duration}
use better_token.State.{LoginSubject, normalize_subject, TokenKind, TokenState}
use better_token.Session.{Session}
use better_token.Store.{Reading}
use better_token.Memory.{SessionItem, MemoryStore, new_store, session_expired}
use better_token.Memory.Tokens.{
  save_state, compare_and_swap, get_state, consume_state, consume_state_of_kind, delete_state,
  find_states, delete_states,
}
use better_token.Memory.Sessions.{
  session_at, drop_session, reread_session, save_session, ensure_session, get_session,
  delete_session,
}
use better_token.Memory.Index.{IsConsistent}
use better_token.Memory.Invariant.{
  Ends, ends_rules, save_state-IsConsistent, compare_and_swap-IsConsistent, get_state-IsConsistent,
  consume_state-IsConsistent, consume_state_of_kind-IsConsistent, delete_state-IsConsistent,
}
use better_token.Memory.Sweep.{find_states-IsConsistent, delete_states-IsConsistent}

pub data Call : Type 0 where
  save : Option TokenState → Duration → Call
  swap : TokenState → TokenState → Duration → Call
  get consume delete : Text → Call
  consume_of_kind : Text → TokenKind → Call
  find delete_of : LoginSubject → List TokenKind → Call
  save_session_of : Option Session → Duration → Call
  ensure : LoginSubject → Duration → Call
  get_session_of delete_session_of : LoginSubject → Call

unfoldable pub perform : Call → Reading → MemoryStore → MemoryStore
perform (save state ttl) r s = (save_state none state ttl r s).1
perform (swap expected next ttl) r s = (compare_and_swap (some expected) (some next) ttl r s).1
perform (get token) r s = (get_state token r s).1
perform (consume token) r s = (consume_state token none r s).1
perform (delete token) r s = (delete_state token r s).1
perform (consume_of_kind token kind) r s = (consume_state_of_kind token kind r s).1
perform (find subject kinds) r s = (find_states subject kinds r s).1
perform (delete_of subject kinds) r s = (delete_states subject kinds r s).1
perform (save_session_of session ttl) r s = (save_session session ttl r s).1
perform (ensure subject ttl) r s = (ensure_session subject ttl r s).1
perform (get_session_of subject) r s = (get_session subject r s).1
perform (delete_session_of subject) r s = (delete_session subject r s).1

unfoldable pub perform_all : List (Call × Reading) → MemoryStore → MemoryStore
unfolding perform
perform_all [] s = s
perform_all ((call, r) ∷ calls) s = perform_all calls (perform call r s)

-- A session operation writes no token and no index.
sessions-IsConsistent :
    {s : MemoryStore} (sessions : Map LoginSubject SessionItem)
    → IsConsistent s
    → IsConsistent (record s { sessions = sessions })
sessions-IsConsistent sessions h = record { agrees = h.agrees; named = h.named }

save_session-IsConsistent :
    (session : Option Session) (ttl : Duration) (r : Reading) {s : MemoryStore}
    → IsConsistent s
    → Ends IsConsistent (save_session session ttl r s)
unfolding save_session
save_session-IsConsistent none ttl r h = search ends_rules
save_session-IsConsistent (some session) ttl r h = search (ends_rules, sessions-IsConsistent _ h)

ensure_session-IsConsistent :
    (subject : LoginSubject) (ttl : Duration) (r : Reading) {s : MemoryStore}
    → IsConsistent s
    → Ends IsConsistent (ensure_session subject ttl r s)
unfolding ensure_session
ensure_session-IsConsistent subject ttl r h = search (ends_rules, sessions-IsConsistent _ h)

pub reread_session_expired :
    (key : LoginSubject) (now : Time) (s : MemoryStore) {item : SessionItem}
    → session_at s key ≡ some item
    → session_expired item now ≡ true
    → reread_session key now s ≡ (none, drop_session key s)
unfolding reread_session
reread_session_expired key now s e x = rw (e, reread_session) (rw x)

get_session-IsConsistent :
    (subject : LoginSubject) (r : Reading) {s : MemoryStore}
    → IsConsistent s
    → Ends IsConsistent (get_session subject r s)
unfolding get_session
get_session-IsConsistent subject r {s} h =
    elim (Option-cases (session_at s (normalize_subject subject))) [
      | inl e ↦ rw e (search ends_rules)
      | inr (item, e) ↦ rw e (elim (Bool-cases (session_expired item r.now)) [
        | inl x ↦
            rw (x, reread_session_expired (normalize_subject subject) r.now s e x)
              (search (ends_rules, sessions-IsConsistent _ h))
        | inr x ↦ rw x (search ends_rules)
      ])
    ]

delete_session-IsConsistent :
    (subject : LoginSubject) (r : Reading) {s : MemoryStore}
    → IsConsistent s
    → Ends IsConsistent (delete_session subject r s)
unfolding delete_session
delete_session-IsConsistent subject r h = search (ends_rules, sessions-IsConsistent _ h)

-- One call keeps the invariant.
pub perform-IsConsistent :
    (call : Call) (r : Reading) {s : MemoryStore} → IsConsistent s → IsConsistent (perform call r s)
unfolding perform
perform-IsConsistent (save state ttl) r h = (save_state-IsConsistent none state ttl r h).at
perform-IsConsistent (swap expected next ttl) r h =
    (compare_and_swap-IsConsistent expected next ttl r h).at
perform-IsConsistent (get token) r h = (get_state-IsConsistent token r h).at
perform-IsConsistent (consume token) r h = (consume_state-IsConsistent token none r h).at
perform-IsConsistent (delete token) r h = (delete_state-IsConsistent token r h).at
perform-IsConsistent (consume_of_kind token kind) r h =
    (consume_state_of_kind-IsConsistent token kind r h).at
perform-IsConsistent (find subject kinds) r h = (find_states-IsConsistent subject kinds r h).at
perform-IsConsistent (delete_of subject kinds) r h =
    (delete_states-IsConsistent subject kinds r h).at
perform-IsConsistent (save_session_of session ttl) r h =
    (save_session-IsConsistent session ttl r h).at
perform-IsConsistent (ensure subject ttl) r h = (ensure_session-IsConsistent subject ttl r h).at
perform-IsConsistent (get_session_of subject) r h = (get_session-IsConsistent subject r h).at
perform-IsConsistent (delete_session_of subject) r h = (delete_session-IsConsistent subject r h).at

-- From a consistent store every sequence of calls, at any times and with contexts that may end at
-- any call, leads to a consistent store.
pub perform_all-IsConsistent :
    (calls : List (Call × Reading)) {s : MemoryStore}
    → IsConsistent s
    → IsConsistent (perform_all calls s)
unfolding perform_all
perform_all-IsConsistent [] h = h
perform_all-IsConsistent ((call, r) ∷ calls) h =
    perform_all-IsConsistent calls (perform-IsConsistent call r h)

-- A new store is consistent.
pub new_store-IsConsistent : IsConsistent new_store
unfolding Map.get
new_store-IsConsistent = record { agrees = λ subject token. refl; named = λ token item e. cc }
