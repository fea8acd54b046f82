-- ===== src/Memory/View/Writes.antt =====
-- storage/memory/store.go: the writes, the deletions and the sessions do to the view of the store what
-- the view's own description says.
use better_token.Base.{
  ◌≡◌, refl, ◌∙◌, ap, Bool, true, false, Option, none, some, List, [], ◌∷◌, arith, inl, inr,
  Option-cases, if_pos, if_neg, if◌then◌else◌,
}
use better_token.Base.Map
use better_token.Base.Map.{get-put, get-delete}
use better_token.Text.{Text, dec_text}
use better_token.Time.{Time, Duration}
use better_token.Errors.{Error, Result, ok, err, token_invalid}
use better_token.State.{
  LoginSubject, dec_subject, normalize_subject, TokenKind, TokenState, normalize_state,
  effective_expires_at, subject_of,
}
use better_token.Store.{Reading}
use better_token.Memory.{
  TokenItem, SessionItem, MemoryStore, token_at, unless_ended, add_index, remove_index,
  delete_token,
}
use better_token.Memory.Tokens.{
  as_expected, install, unindex_old, save_state, compare_and_swap, delete_state, delete_one,
  delete_all, delete_states,
}
use better_token.Memory.Tokens as Tokens
use better_token.Memory.Sessions.{session_at}
use better_token.Memory.Index.{IsConsistent, token_at-delete_token}
use better_token.Memory.Invariant.{token_at-install}
use better_token.Memory.Subject.{delete_states-exact}
use better_token.Memory.View.{View, set_token, expected_at, saved, as_swap, swapped, deleted_of}

-- What a client can tell of a store: the items, and the sessions' items.
abbrev pub view_of : MemoryStore → View
view_of s = record { token = token_at s; session = session_at s }

-- The outcome of an operation, seen through the view.
pub record Refines {A : Type 0} (out : A × MemoryStore) (spec : A × View) : Type 0 where
  pub answer : out.0 ≡ spec.0
  pub tokens : (k : Text) → token_at out.1 k ≡ spec.1.token k
  pub sessions : (k : LoginSubject) → session_at out.1 k ≡ spec.1.session k

module _ {A : Type 0} where
  pub Refines-same : (a : A) (s : MemoryStore) → Refines (a, s) (a, view_of s)
  Refines-same a s = record { answer = refl; tokens = λ k. refl; sessions = λ k. refl }

  pub Refines-if :
      (b : Bool) {x y : A × MemoryStore} {u v : A × View}
      → Refines x u
      → Refines y v
      → Refines (if b then x else y) (if b then u else v)
  Refines-if true h k = h
  Refines-if false h k = k

pub Refines-unless_ended :
    {A : Type 0} (c : Option Error) (s : MemoryStore) {x : Result A × MemoryStore}
    {u : Result A × View}
    → Refines x u
    → Refines (unless_ended c s x) (unless_ended c (view_of s) u)
Refines-unless_ended none s h = h
Refines-unless_ended (some e) s h = Refines-same (err e) s

pub Refines-live :
    {A : Type 0} (r : Reading) (s : MemoryStore) {x : Result A × MemoryStore} {u : Result A × View}
    → r.ctx_err ≡ none
    → Refines x u
    → Refines x (unless_ended r.ctx_err (view_of s) u)
Refines-live r s c h = rw c h

pub ruleset refines_rules = (Refines-same, Refines-if, Refines-unless_ended)

as_expected-expected_at :
    (expected : Option TokenState) (now : Time) (old : Option TokenItem)
    → as_expected expected now old ≡ expected_at expected now old
unfolding as_expected
as_expected-expected_at none now old = refl
as_expected-expected_at (some expected) now none = refl
as_expected-expected_at (some expected) now (some old) = ground arith

sessions-remove_index :
    (subject : LoginSubject) (token : Text) (s : MemoryStore)
    → (remove_index subject token s).sessions ≡ s.sessions
unfolding remove_index
sessions-remove_index subject token s = ground arith

sessions-install :
    (state : TokenState) (expires : Option Time) (s : MemoryStore)
    → (install state expires s).sessions ≡ s.sessions
unfolding install add_index unindex_old
sessions-install state expires s = elim (Option-cases (token_at s state.token)) [
  | inl e ↦ rw e refl
  | inr (item, e) ↦ rw e (sessions-remove_index (subject_of item.state) state.token s)
]

pub sessions-delete_token :
    (token : Text) (s : MemoryStore) → (delete_token token s).sessions ≡ s.sessions
unfolding delete_token
sessions-delete_token token s = elim (Option-cases (token_at s token)) [
  | inl e ↦ rw (e, delete_token) refl
  | inr (item, e) ↦ rw (e, delete_token) (sessions-remove_index (subject_of item.state) token s)
]

-- Sessions that an operation does not touch
pub session_get :
    {m n : Map.Map LoginSubject SessionItem} (k : LoginSubject)
    → m ≡ n
    → Map.get dec_subject k m ≡ Map.get dec_subject k n
session_get k e = ap (Map.get dec_subject k) e

install-Refines :
    (state : TokenState) (ttl : Duration) (r : Reading) (s : MemoryStore)
    → Refines
        (ok tt, install (normalize_state state) (effective_expires_at state.expires_at r.now ttl) s)
        (
          ok tt,
          set_token state.token
              (some (record {
                state = normalize_state state;
                expires_at = effective_expires_at state.expires_at r.now ttl;
              }))
              (view_of s),
        )
unfolding normalize_state
install-Refines state ttl r s = record {
  answer = refl;
  tokens =
      token_at-install (normalize_state state) (effective_expires_at state.expires_at r.now ttl) s;
  sessions = λ k. session_get k (
      sessions-install (normalize_state state) (effective_expires_at state.expires_at r.now ttl) s);
}

pub save_state-Refines :
    (expected : Option TokenState) (state : TokenState) (ttl : Duration) (r : Reading)
    (s : MemoryStore)
    → Refines (save_state expected (some state) ttl r s) (saved expected state ttl r (view_of s))
unfolding save_state normalize_state
save_state-Refines expected state ttl r s =
    rw (as_expected-expected_at expected r.later (token_at s state.token))
      (search (refines_rules, install-Refines) depth 8)

swapped-as_swap : (e : Result (Unit {0})) → Tokens.swapped e ≡ as_swap e
swapped-as_swap (ok u) = refl
swapped-as_swap (err e) = ground arith

pub compare_and_swap-Refines :
    (expected next : TokenState) (ttl : Duration) (r : Reading) (s : MemoryStore)
    → Refines
        (compare_and_swap (some expected) (some next) ttl r s)
        (swapped expected next ttl r (view_of s))
unfolding compare_and_swap
compare_and_swap-Refines expected next ttl r s = elim (dec_text expected.token next.token) [
  | yes p ↦
      let h = save_state-Refines (some expected) next ttl r s in
      rw
        (
          if_pos (dec_text expected.token next.token) p,
          if_pos (dec_text expected.token next.token) p,
        )
        (record {
          answer = swapped-as_swap _ ∙ ap as_swap h.answer;
          tokens = h.tokens;
          sessions = h.sessions;
        })
  | no p ↦
      rw
        (
          if_neg (dec_text expected.token next.token) p,
          if_neg (dec_text expected.token next.token) p,
        )
        (Refines-same (err token_invalid) s)
]

delete_token-Refines :
    (token : Text) (s : MemoryStore)
    → Refines {A = Result (Unit {0})}
        (ok tt, delete_token token s)
        (ok tt, set_token token none (view_of s))
delete_token-Refines token s = record {
  answer = refl;
  tokens = λ k. token_at-delete_token token k s;
  sessions = λ k. session_get k (sessions-delete_token token s);
}

pub delete_state-Refines :
    (token : Text) (r : Reading) (s : MemoryStore)
    → Refines
        (delete_state token r s)
        (unless_ended r.ctx_err (view_of s) (ok tt, set_token token none (view_of s)))
unfolding delete_state
delete_state-Refines token r s = search (refines_rules, delete_token-Refines)

sessions-delete_one :
    (kinds : List TokenKind) (token : Text) (s : MemoryStore)
    → (delete_one kinds token s).sessions ≡ s.sessions
unfolding delete_one
sessions-delete_one kinds token s = ground (arith, sessions-delete_token token s)

sessions-delete_all :
    (kinds : List TokenKind) (ts : List Text) (s : MemoryStore)
    → (delete_all kinds ts s).sessions ≡ s.sessions
unfolding delete_all
sessions-delete_all kinds [] s = refl
sessions-delete_all kinds (t ∷ ts) s =
    sessions-delete_all kinds ts (delete_one kinds t s) ∙ sessions-delete_one kinds t s

pub delete_states-Refines :
    (subject : LoginSubject) (kinds : List TokenKind) (r : Reading) {s : MemoryStore}
    → IsConsistent s
    → Refines (delete_states subject kinds r s) (deleted_of subject kinds r (view_of s))
unfolding delete_states
delete_states-Refines subject kinds r {s} h = elim (Option-cases r.ctx_err) [
  | inl e ↦ rw e (record {
    answer = refl;
    tokens = λ k. rw e at (delete_states-exact subject kinds r k h e);
    sessions = λ k.
        session_get k (sessions-delete_all kinds (Tokens.indexed (normalize_subject subject) s) s);
  })
  | inr (x, e) ↦ rw e (Refines-same (err x) s)
]
