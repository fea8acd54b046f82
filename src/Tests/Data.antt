-- ===== src/Tests/Data.antt =====
-- Test data.
use better_token.Base.{none, some, List, [], ◌∷◌, ◌++◌}
use better_token.Text.{Text, text}
use better_token.Time.{Time, nanoseconds}
use better_token.Errors.{ok}
use better_token.State.{LoginSubject, TokenKind, TokenStatus, TokenState}
use better_token.Store.{Reading}
use better_token.Memory.{MemoryStore, new_store}
use better_token.Memory.Index.{IsConsistent}
use better_token.Memory.Calls.{Call, perform_all, perform_all-IsConsistent, new_store-IsConsistent}
use better_token.Run.{World}

-- A state of user `u`.
abbrev pub state_of_kind : Text → TokenKind → TokenState
state_of_kind token kind = record {
  token = token;
  kind = kind;
  login_id = text "u";
  login_type = text "login";
  device = [];
  created_at = 0;
  last_active_at = 0;
  expires_at = some 1000;
  status = TokenStatus.active;
  metadata = [];
  refresh_info = none;
  nonce_info = none;
  online_info = none;
}

abbrev pub user : LoginSubject
user = record { login_id = text "u"; login_type = text "login" }

abbrev pub access_state : TokenState
access_state = state_of_kind (text "#a") TokenKind.access

-- A call at an instant.
abbrev pub reading_at : Time → Reading
reading_at t = record { now = t; later = t; ctx_err = none }

-- A store with one token of each kind, built as the calls build it.
abbrev pub saves : List (Call × Reading)
saves =
    (Call.save (some access_state) (nanoseconds 500), reading_at 0)
    ∷ (
      Call.save (some (state_of_kind (text "#r") TokenKind.refresh)) (nanoseconds 500),
      reading_at 0,
    )
    ∷ (Call.save (some (state_of_kind (text "#n") TokenKind.nonce)) (nanoseconds 500), reading_at 0)
    ∷ []

abbrev pub filled : MemoryStore
filled = perform_all saves new_store

pub filled-IsConsistent : IsConsistent filled
filled-IsConsistent = perform_all-IsConsistent saves new_store-IsConsistent

-- A digest for the tests.
abbrev pub digest : Text → Text
digest t = text "#" ++ t

-- A world with the store, at instant 100.
abbrev pub world_of : MemoryStore → World MemoryStore
world_of s = record {
  store = s;
  events = [];
  env = λ n. record {
    now = 100;
    later = 100;
    ctx_err = none;
    detached_err = none;
    random_string = λ length. ok (text "x");
  };
  step = 0;
}
