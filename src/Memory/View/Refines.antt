-- ===== src/Memory/View/Refines.antt =====
-- storage/memory/store.go: the store in memory answers, call by call, what the abstract store answers.
use mathlib.Core.Path.{fun_ext, subst, ap₂}
use better_token.Base.{
  ◌≡◌, refl, sym, ◌∙◌, ap, Option, none, some, List, [], ◌∷◌, arith, ite, inl, inr, Option-cases,
  Bool-cases, if_pos, if_neg, if◌then◌else◌,
}
use better_token.Base.Map
use better_token.Base.Map.{get-put, get-delete}
use better_token.Time.{Time, Duration}
use better_token.Errors.{Result, ok, err, empty_token, empty_session_id}
use better_token.State.{LoginSubject, dec_subject, normalize_subject}
use better_token.Session.{Session}
use better_token.Store.{Reading}
use better_token.Memory.{SessionItem, MemoryStore, new_store, session_expired, unless_ended}
use better_token.Memory.Tokens.{
  save_state, compare_and_swap, get_state, consume_state, consume_state_of_kind, delete_state,
  find_states, delete_states,
}
use better_token.Memory.Sessions.{
  session_at, save_session, ensure_session, reread_session, get_session, delete_session,
  live_session,
}
use better_token.Memory.Index.{IsConsistent}
use better_token.Memory.Calls.{
  Call, save, swap, get, consume, delete, consume_of_kind, find, delete_of, save_session_of, ensure,
  get_session_of, delete_session_of, perform, perform-IsConsistent, reread_session_expired,
  new_store-IsConsistent,
}
use better_token.Memory.View.{
  View, Answer, done, swap_done, given, found, session_given, answered, respond, set_session,
  saved_session, ensured, read_session, unexpired_session, session_or_new, session_of,
}
use better_token.Memory.View.Writes.{
  view_of, Refines, refines_rules, Refines-same, Refines-live, save_state-Refines,
  compare_and_swap-Refines, delete_state-Refines, delete_states-Refines,
}
use better_token.Memory.View.Reads.{
  get_state-Refines, consume_state-Refines, consume_state_of_kind-Refines,
}
use better_token.Memory.View.Searches.{as_set, find_states-Refines}

put_session-Refines :
    (key : LoginSubject) (item : SessionItem) (s : MemoryStore)
    → Refines {A = Result (Unit {0})}
        (ok tt, record s { sessions = Map.put dec_subject key item s.sessions })
        (ok tt, set_session key (some item) (view_of s))
put_session-Refines key item s = record {
  answer = refl;
  tokens = λ k. refl;
  sessions = λ k. get-put dec_subject key k item s.sessions;
}

save_session-Refines :
    (session : Session) (ttl : Duration) (r : Reading) (s : MemoryStore)
    → Refines (save_session (some session) ttl r s) (saved_session session ttl r (view_of s))
unfolding save_session
save_session-Refines session ttl r s = search (refines_rules, put_session-Refines) depth 8

live_session-eq :
    (key : LoginSubject) (now : Time) (o : Option SessionItem)
    → live_session key now o ≡ session_or_new key (unexpired_session now o)
live_session-eq key now none = refl
live_session-eq key now (some item) = ground arith

ensure_session-Refines :
    (subject : LoginSubject) (ttl : Duration) (r : Reading) (s : MemoryStore)
    → Refines (ensure_session subject ttl r s) (ensured subject ttl r (view_of s))
unfolding ensure_session
ensure_session-Refines subject ttl r s =
    rw
      (live_session-eq (normalize_subject subject) r.now (session_at s (normalize_subject subject)))
      (search (refines_rules, put_session-Refines) depth 8)

-- An entry of the sessions set to what it is.
session_set :
    (key k : LoginSubject) (o : Option SessionItem) (s : MemoryStore)
    → session_at s key ≡ o
    → session_at s k ≡ ite (dec_subject key k) o (session_at s k)
session_set key k o s e = elim (dec_subject key k) [
  | yes p ↦
      subst (λ (q : LoginSubject). session_at s q ≡ o) p e
      ∙ sym (if_pos {C = Option SessionItem} (dec_subject key k) p o (session_at s k))
  | no p ↦ sym (if_neg {C = Option SessionItem} (dec_subject key k) p o (session_at s k))
]

get_session-Refines :
    (subject : LoginSubject) (r : Reading) (s : MemoryStore)
    → Refines (get_session subject r s) (read_session subject r (view_of s))
unfolding get_session
get_session-Refines subject r s = elim (Option-cases r.ctx_err) [
  | inr (x, c) ↦ rw c (Refines-same (err x) s)
  | inl c ↦ Refines-live r s c (rw c (looked (session_at s (normalize_subject subject)) refl))
]
  where
    looked :
        (o : Option SessionItem)
        → session_at s (normalize_subject subject) ≡ o
        → Refines
            (unless_ended none s (elim (session_at s (normalize_subject subject)) [
              | none ↦ (ok none, s)
              | some item ↦
                  if session_expired item r.now
                  then (let again = reread_session (normalize_subject subject) r.now s in
                      (ok again.0, again.1))
                  else (ok (session_of (some item)), s)
            ]))
            (
              ok (session_of (unexpired_session r.now (session_at s (normalize_subject subject)))),
              set_session
                  (normalize_subject subject)
                  (unexpired_session r.now (session_at s (normalize_subject subject)))
                  (view_of s),
            )
    looked none e = rw e (record {
      answer = refl;
      tokens = λ k. refl;
      sessions = λ k. session_set (normalize_subject subject) k none s e;
    })
    looked (some item) e = elim (Bool-cases (session_expired item r.now)) [
      | inl x ↦
          rw (e, x, reread_session_expired (normalize_subject subject) r.now s e x)
            (record {
              answer = refl;
              tokens = λ k. refl;
              sessions = λ k. get-delete dec_subject (normalize_subject subject) k s.sessions;
            })
      | inr x ↦
          rw (e, x)
            (record {
              answer = refl;
              tokens = λ k. refl;
              sessions = λ k. session_set (normalize_subject subject) k (some item) s e;
            })
    ]

delete_session-Refines :
    (subject : LoginSubject) (r : Reading) (s : MemoryStore)
    → Refines (delete_session subject r s) (
        unless_ended r.ctx_err
          (view_of s)
          (ok tt, set_session (normalize_subject subject) none (view_of s)))
unfolding delete_session
delete_session-Refines subject r s = elim (Option-cases r.ctx_err) [
  | inr (x, c) ↦ rw c (Refines-same (err x) s)
  | inl c ↦ rw c (record {
    answer = refl;
    tokens = λ k. refl;
    sessions = λ k. get-delete dec_subject (normalize_subject subject) k s.sessions;
  })
]

-- What a call on the store answers; of a search, the set of what it finds.
unfoldable pub answer_of : Call → Reading → MemoryStore → Answer
answer_of (save state ttl) r s = done (save_state none state ttl r s).0
answer_of (swap expected next ttl) r s =
    swap_done (compare_and_swap (some expected) (some next) ttl r s).0
answer_of (get token) r s = given (get_state token r s).0
answer_of (consume token) r s = given (consume_state token none r s).0
answer_of (delete token) r s = done (delete_state token r s).0
answer_of (consume_of_kind token kind) r s = given (consume_state_of_kind token kind r s).0
answer_of (find subject kinds) r s = found (as_set (find_states subject kinds r s).0)
answer_of (delete_of subject kinds) r s = done (delete_states subject kinds r s).0
answer_of (save_session_of session ttl) r s = done (save_session session ttl r s).0
answer_of (ensure subject ttl) r s = done (ensure_session subject ttl r s).0
answer_of (get_session_of subject) r s = session_given (get_session subject r s).0
answer_of (delete_session_of subject) r s = done (delete_session subject r s).0

-- The view's outcome of a call, as the store's.
seen :
    {A : Type 0} (f : A → Answer) {out : A × MemoryStore} {spec : A × View}
    → Refines out spec
    → (f out.0, view_of out.1) ≡ answered f spec
seen f {out} {spec} h =
    ap₂ (λ a v. (f a, v)) h.answer
      (λ i. record { token = fun_ext h.tokens i; session = fun_ext h.sessions i })

save_none-Refines :
    (ttl : Duration) (r : Reading) (s : MemoryStore)
    → Refines
        (save_state none none ttl r s)
        (unless_ended r.ctx_err (view_of s) (err empty_token, view_of s))
unfolding save_state
save_none-Refines ttl r s = search refines_rules

save_no_session-Refines :
    (ttl : Duration) (r : Reading) (s : MemoryStore)
    → Refines
        (save_session none ttl r s)
        (unless_ended r.ctx_err (view_of s) (err empty_session_id, view_of s))
unfolding save_session
save_no_session-Refines ttl r s = search refines_rules

perform-respond :
    (call : Call) (r : Reading) (s : MemoryStore)
    → IsConsistent s
    → (answer_of call r s, view_of (perform call r s)) ≡ respond call r (view_of s)
unfolding perform answer_of respond
perform-respond (save none ttl) r s h = seen done (save_none-Refines ttl r s)
perform-respond (save (some state) ttl) r s h = seen done (save_state-Refines none state ttl r s)
perform-respond (swap expected next ttl) r s h =
    seen swap_done (compare_and_swap-Refines expected next ttl r s)
perform-respond (get token) r s h = seen given (get_state-Refines token r s)
perform-respond (consume token) r s h = seen given (consume_state-Refines token none r s)
perform-respond (delete token) r s h = seen done (delete_state-Refines token r s)
perform-respond (consume_of_kind token kind) r s h =
    seen given (consume_state_of_kind-Refines token kind r s)
perform-respond (find subject kinds) r s h = seen found (find_states-Refines subject kinds r s h)
perform-respond (delete_of subject kinds) r s h =
    seen done (delete_states-Refines subject kinds r h)
perform-respond (save_session_of none ttl) r s h = seen done (save_no_session-Refines ttl r s)
perform-respond (save_session_of (some session) ttl) r s h =
    seen done (save_session-Refines session ttl r s)
perform-respond (ensure subject ttl) r s h = seen done (ensure_session-Refines subject ttl r s)
perform-respond (get_session_of subject) r s h =
    seen session_given (get_session-Refines subject r s)
perform-respond (delete_session_of subject) r s h = seen done (delete_session-Refines subject r s)

-- The answers to a sequence of calls, on the store and on the view.
unfoldable pub answers : List (Call × Reading) → MemoryStore → List Answer
unfolding perform answer_of
answers [] s = []
answers ((call, r) ∷ calls) s = answer_of call r s ∷ answers calls (perform call r s)

unfoldable pub view_answers : List (Call × Reading) → View → List Answer
unfolding respond
view_answers [] v = []
view_answers ((call, r) ∷ calls) v = let (a, v') = respond call r v in a ∷ view_answers calls v'

answers_from :
    (calls : List (Call × Reading)) (s : MemoryStore)
    → IsConsistent s
    → answers calls s ≡ view_answers calls (view_of s)
unfolding answers view_answers
answers_from [] s h = refl
answers_from ((call, r) ∷ calls) s h =
    let e = perform-respond call r s h in
    ap₂ (λ a rest. a ∷ rest) (ap (λ (out : Answer × View). out.0) e)
      (answers_from calls (perform call r s) (perform-IsConsistent call r h)
        ∙ ap (λ (out : Answer × View). view_answers calls out.1) e)

-- From a new store on, every sequence of calls, at any times and with contexts that may end at any call,
-- is answered as the abstract store answers it, which is a function of the tokens and one of the
-- subjects, and where a search answers the set of the states that it finds. On the abstract store a
-- token that has expired counts as not stored. For a consumption that departs from the comment on
-- ConsumeTokenState, which promises the snapshot of an expired token.
pub answers-new_store :
    (calls : List (Call × Reading))
    → answers calls new_store ≡ view_answers calls (view_of new_store)
answers-new_store calls = answers_from calls new_store new_store-IsConsistent
