-- ===== src/Tests/Store.antt =====
-- The theorems on the store in memory, at concrete inputs.
use better_token.Base.{◌≡◌, refl, ◌⊎◌, ◌||◌, none, some, List, [], ◌∷◌, ◌++◌, if◌then◌else◌}
use better_token.Base.Map
use better_token.Text.{Text, text, dec_text}
use better_token.Time.{nanoseconds, add_duration}
use better_token.Errors.{ok}
use better_token.State.{
  TokenState, dec_kind, deadline, touch, is_active, normalize_subject, TokenKind, TokenStatus,
  normalize_state, is_expired_at, effective_expires_at, mark_consumed,
}
use better_token.State.Lifetime.{effective_expires_at_lem}
use better_token.Memory.{new_store, token_at, item_expired}
use better_token.Memory.Index.{IsConsistent}
use better_token.Memory.Tokens.{
  save_state, get_state, consume_state, compare_and_swap, install, delete_states, find_states,
}
use better_token.Memory.Calls.{
  Call, perform, perform_all, perform_all-IsConsistent, new_store-IsConsistent,
}
use better_token.Memory.Effects.{
  get_state-save_state, compare_and_swap-eq, swap_result, equals, state_of, live_at,
}
use better_token.Memory.Subject.{is_selected, delete_states-exact}
use better_token.Memory.Search.{Within, IsHit, find_states-exact}
use better_token.Store.{Reading}
use better_token.Memory.View.Writes.{view_of}
use better_token.Memory.View.Refines.{answers, view_answers, answers-new_store}
use better_token.Memory.Consumption.{Consumption, consume_state-Consumption}
use better_token.Memory.Once.{consume_once}
use better_token.Tests.Data.{saves, filled, filled-IsConsistent, access_state, reading_at, user}

perform_all-IsConsistent_example : IsConsistent filled
perform_all-IsConsistent_example = perform_all-IsConsistent saves new_store-IsConsistent

get_state-save_state_example :
    (get_state
      (text "#a")
      (reading_at 50)
      (save_state none (some access_state) (nanoseconds 500) (reading_at 0) new_store).1).0
    ≡ ok (some access_state)
unfolding normalize_state is_expired_at add_duration
get_state-save_state_example =
    get_state-save_state access_state (nanoseconds 500) (reading_at 0) (reading_at 50) new_store
      refl refl refl

compare_and_swap-eq_example :
    compare_and_swap
      (some access_state)
      (some (touch 7 access_state))
      (nanoseconds 500)
      (reading_at 50)
      filled
    ≡ swap_result
        (equals (state_of (live_at filled (text "#a") 50)) access_state)
        (touch 7 access_state)
        (nanoseconds 500)
        50
        filled
unfolding normalize_state
compare_and_swap-eq_example =
    compare_and_swap-eq access_state (touch 7 access_state) (nanoseconds 500) (reading_at 50) filled
      refl refl refl

consume_state-Consumption_example :
    Consumption
      (some TokenKind.nonce)
      50
      (token_at filled (text "#n"))
      (consume_state (text "#n") (some TokenKind.nonce) (reading_at 50) filled).0
      (token_at
        (consume_state (text "#n") (some TokenKind.nonce) (reading_at 50) filled).1
        (text "#n"))
    × ((text "#n" ≡ text "#a")
        ⊎ (token_at
              (consume_state (text "#n") (some TokenKind.nonce) (reading_at 50) filled).1
              (text "#a")
            ≡ token_at filled (text "#a")))
consume_state-Consumption_example =
    consume_state-Consumption (text "#n") (some TokenKind.nonce) (reading_at 50) filled (text "#a")
      refl

delete_states-exact_example :
    token_at (delete_states user (TokenKind.refresh ∷ []) (reading_at 50) filled).1 (text "#a") ≡ (
      if is_selected (normalize_subject user) (TokenKind.refresh ∷ []) (token_at filled (text "#a"))
      then none
      else token_at filled (text "#a"))
delete_states-exact_example =
    delete_states-exact user (TokenKind.refresh ∷ []) (reading_at 50) (text "#a")
      filled-IsConsistent refl

find_states-exact_example :
    (found : List TokenState) × ((find_states user (TokenKind.access ∷ []) (reading_at 50) filled).0
      ≡ ok found)
    × ((state : TokenState)
        → Within state found
        → (token : Text) × IsHit filled user (TokenKind.access ∷ []) 50 token state)
    × ((token : Text) (state : TokenState)
        → IsHit filled user (TokenKind.access ∷ []) 50 token state
        → Within state found)
find_states-exact_example =
    find_states-exact user (TokenKind.access ∷ []) (reading_at 50) filled filled-IsConsistent refl

effective_expires_at_lem_example :
    is_expired_at (effective_expires_at (some 300) 100 (nanoseconds 500)) 400
    ≡ (is_expired_at (deadline 100 (nanoseconds 500)) 400 || is_expired_at (some 300) 400)
effective_expires_at_lem_example = effective_expires_at_lem (some 300) 100 (nanoseconds 500) 400

consume_once_example : TokenStatus.consumed ≡ TokenStatus.consumed
unfolding consume_state is_active mark_consumed dec_kind item_expired is_expired_at perform
    perform_all dec_text Map.get Map.put save_state install normalize_state add_duration get_state
consume_once_example =
    consume_once (text "#n") (some TokenKind.nonce) none (reading_at 50) (reading_at 60) filled
      ((Call.get (text "#n"), reading_at 55) ∷ []) refl refl refl (tt, tt) refl

abbrev calls : List (Call × Reading)
calls =
    saves
    ++ (Call.consume (text "#n"), reading_at 50)
      ∷ (Call.find user [], reading_at 60)
      ∷ (Call.delete_of user (TokenKind.access ∷ []), reading_at 70)
      ∷ (Call.get (text "#a"), reading_at 80)
      ∷ []

answers-new_store_example : answers calls new_store ≡ view_answers calls (view_of new_store)
answers-new_store_example = answers-new_store calls
