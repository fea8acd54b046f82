-- ===== src/Store.antt =====
-- core/store.go: the ports Store and AtomicStore, as records of operations over the state `S` of
-- an implementation. A call takes what its environment gives it: two readings of the clock and
-- the error of its context, if that has ended. A pointer result that is nil and the result
-- `false` beside it are both `none`, since no caller tells them apart.
use better_token.Base.{Bool, Option, List}
use better_token.Text.{Text}
use better_token.Time.{Time, Duration}
use better_token.Errors.{Error, Result}
use better_token.State.{LoginSubject, TokenKind, TokenState}
use better_token.Session.{Session}

pub record Reading : Type 0 where
  pub now : Time
  pub later : Time
  pub ctx_err : Option Error

abbrev pub Op {ℓ} : Type ℓ → Type ℓ → Type ℓ
Op S A = Reading → S → Result A × S

pub record StoreOps (S : Type 0) : Type 0 where
  pub save_token_state : TokenState → Duration → Op S Unit
  pub get_token_state : Text → Op S (Option TokenState)
  pub consume_token_state : Text → Op S (Option TokenState)
  pub delete_token_state : Text → Op S Unit
  pub find_token_states : LoginSubject → List TokenKind → Op S (List TokenState)
  pub delete_token_states : LoginSubject → List TokenKind → Op S Unit
  pub save_session : Session → Duration → Op S Unit
  pub get_session : LoginSubject → Op S (Option Session)
  pub delete_session : LoginSubject → Op S Unit

pub record AtomicOps (S : Type 0) : Type 0 where
  pub compare_and_swap_token_state : TokenState → TokenState → Duration → Op S Bool
  pub consume_token_state_of_kind : Text → TokenKind → Op S (Option TokenState)
  pub ensure_session : LoginSubject → Duration → Op S Unit
