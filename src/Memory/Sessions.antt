-- ===== src/Memory/Sessions.antt =====
-- storage/memory/store.go: the operations on sessions.
use better_token.Base.{Option, none, some, if◌then◌else◌}
use better_token.Base.Map
use better_token.Time.{Duration, Time}
use better_token.Errors.{ok, err, empty_session_id}
use better_token.State.{LoginSubject, dec_subject, normalize_subject, is_zero_subject, deadline}
use better_token.Session.{Session, clone_session, new_session_for_subject}
use better_token.Store.{Op}
use better_token.Memory.{SessionItem, MemoryStore, session_expired, with_context}

abbrev pub session_at : MemoryStore → LoginSubject → Option SessionItem
session_at s subject = Map.get dec_subject subject s.sessions

abbrev pub put_session : LoginSubject → SessionItem → MemoryStore → MemoryStore
put_session key item s = record s { sessions = Map.put dec_subject key item s.sessions }

abbrev pub drop_session : LoginSubject → MemoryStore → MemoryStore
drop_session key s = record s { sessions = Map.delete dec_subject key s.sessions }

-- SaveSession
unfoldable pub save_session : Option Session → Duration → Op MemoryStore Unit
unfolding normalize_subject is_zero_subject clone_session
save_session none ttl r s = with_context r s (err empty_session_id, s)
save_session (some session) ttl r s =
    let key = normalize_subject session.subject in
    with_context r s (
      if is_zero_subject key then (err empty_session_id, s) else (
        ok tt,
        put_session key
            (record { session = clone_session session; expires_at = deadline r.now ttl }) s,
      ))

-- EnsureSession: only the lifetime of a live session changes.
abbrev pub live_session : LoginSubject → Time → Option SessionItem → Session
live_session subject now none = new_session_for_subject subject
live_session subject now (some item) =
    if session_expired item now then new_session_for_subject subject else item.session

unfoldable pub ensure_session : LoginSubject → Duration → Op MemoryStore Unit
unfolding normalize_subject is_zero_subject new_session_for_subject session_expired
ensure_session subject ttl r s =
    let key = normalize_subject subject in
    with_context r s (
      if is_zero_subject key then (err empty_session_id, s) else (
        ok tt,
        put_session key
            (record {
              session = live_session key r.now (session_at s key);
              expires_at = deadline r.now ttl;
            })
            s,
      ))

-- GetSession: as for a token, an expired session is dropped at the second look.
unfoldable pub reread_session : LoginSubject → Time → MemoryStore → Option Session × MemoryStore
unfolding session_expired clone_session
reread_session key now s = elim (session_at s key) [
  | none ↦ (none, s)
  | some item ↦
      if session_expired item now
      then (none, drop_session key s)
      else (some (clone_session item.session), s)
]

unfoldable pub get_session : LoginSubject → Op MemoryStore (Option Session)
unfolding normalize_subject session_expired clone_session reread_session
get_session subject r s =
    let key = normalize_subject subject in
    with_context r s (elim (session_at s key) [
      | none ↦ (ok none, s)
      | some item ↦
          if session_expired item r.now
          then (let again = reread_session key r.now s in (ok again.0, again.1))
          else (ok (some (clone_session item.session)), s)
    ])

-- DeleteSession
unfoldable pub delete_session : LoginSubject → Op MemoryStore Unit
unfolding normalize_subject
delete_session subject r s = with_context r s (ok tt, drop_session (normalize_subject subject) s)
