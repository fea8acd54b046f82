-- ===== src/Memory.antt =====
-- storage/memory/store.go: the data of the store in memory, and the helpers that run under its lock.
-- The operations are in `Memory/Tokens` and `Memory/Sessions`. The lock makes each operation one step; `now` is
-- read before the lock is taken. An item always holds a state, since only `saveTokenState` makes
-- one, so the tests for a nil state are left out.
pub mod Tokens
pub mod Sessions
pub mod Ops
pub mod Index
pub mod Invariant
pub mod Sweep
pub mod Calls
pub mod Effects
pub mod Subject
pub mod Search
pub mod Spent
pub mod Consumption
pub mod Once
pub mod Gone
pub mod View
use better_token.Base.{
  ◌≡◌, Bool, true, false, not, ◌&&◌, ◌||◌, Option, none, some, List, [], ◌∷◌, ◌++◌, ite, is_nil,
  if◌then◌else◌,
}
use better_token.Base.Map
use better_token.Base.Map.{Map, Set, keys}
use better_token.Text.{Text, dec_text}
use better_token.Time.{Time, Duration, add_duration}
use better_token.Errors.{
  Error, Result, ok, err, empty_token, empty_login_id, token_invalid, unsupported_kind,
  empty_session_id,
}
use better_token.State.{
  LoginSubject, dec_subject, normalize_subject, is_zero_subject, TokenKind, dec_kind, TokenState,
  dec_state, normalize_state, is_expired_at, effective_expires_at, deadline, is_active, subject_of,
  mark_consumed, match_kind,
}
use better_token.Session.{Session, clone_session, new_session_for_subject}
use better_token.Store.{Reading, Op, StoreOps, AtomicOps}

pub record TokenItem : Type 0 where
  pub state : TokenState
  pub expires_at : Option Time

pub record SessionItem : Type 0 where
  pub session : Session
  pub expires_at : Option Time

pub record MemoryStore : Type 0 where
  pub tokens : Map Text TokenItem
  pub indexes : Map LoginSubject (Set Text)
  pub sessions : Map LoginSubject SessionItem

-- NewStore
abbrev pub new_store : MemoryStore
new_store = record { tokens = []; indexes = []; sessions = [] }

-- tokenItem.isExpired and sessionItem.isExpired
unfoldable pub item_expired : TokenItem → Time → Bool
unfolding is_expired_at
item_expired i now = is_expired_at i.expires_at now || is_expired_at i.state.expires_at now

unfoldable pub session_expired : SessionItem → Time → Bool
unfolding is_expired_at
session_expired i now = is_expired_at i.expires_at now

abbrev pub token_at : MemoryStore → Text → Option TokenItem
token_at s token = Map.get dec_text token s.tokens

abbrev pub index_at : MemoryStore → LoginSubject → Option (Set Text)
index_at s subject = Map.get dec_subject subject s.indexes

-- addIndexLocked and removeIndexLocked
abbrev tokens_of : Option (Set Text) → Set Text
tokens_of none = []
tokens_of (some tokens) = tokens

unfoldable pub add_index : LoginSubject → Text → MemoryStore → MemoryStore
add_index subject token s =
    let key = normalize_subject subject in
    record s {
      indexes =
          Map.put dec_subject key (Map.put dec_text token tt (tokens_of (index_at s key)))
            s.indexes;
    }

-- An index without tokens is dropped.
abbrev put_or_drop :
    LoginSubject → Set Text → Map LoginSubject (Set Text) → Map LoginSubject (Set Text)
put_or_drop key tokens indexes =
    if is_nil tokens
    then Map.delete dec_subject key indexes
    else Map.put dec_subject key tokens indexes

unfoldable pub remove_index : LoginSubject → Text → MemoryStore → MemoryStore
remove_index subject token s =
    let key = normalize_subject subject in
    elim (index_at s key) [
      | none ↦ s
      | some tokens ↦ record s {
        indexes = put_or_drop key (Map.delete dec_text token tokens) s.indexes;
      }
    ]

-- deleteTokenLocked
unfoldable pub delete_token : Text → MemoryStore → MemoryStore
unfolding remove_index
delete_token token s = elim (token_at s token) [
  | none ↦ s
  | some item ↦ record (remove_index (subject_of item.state) token s) {
    tokens = Map.delete dec_text token s.tokens;
  }
]

-- `if err := contextErr(ctx); err != nil { return err }`
abbrev pub unless_ended {ℓ} : {S A : Type ℓ} → Option Error → S → (Result A × S) → Result A × S
unless_ended none s rest = rest
unless_ended (some e) s rest = (err e, s)

abbrev pub with_context {ℓ} : {S A : Type ℓ} → Reading → S → (Result A × S) → Result A × S
with_context r s rest = unless_ended r.ctx_err s rest
