-- ===== src/Tests/Manager.antt =====
-- The theorems on the manager, at concrete inputs.
use better_token.Base.{◌≡◌, refl, true, false, some, List, [], ◌∷◌}
use better_token.Base.Map
use better_token.Text.{text, dec_text}
use better_token.Time.{add_duration}
use better_token.Errors.{Result, ok, err}
use better_token.State.{dec_subject, TokenKind, TokenState}
use better_token.Store.{Reading}
use better_token.Config.{default_config}
use better_token.Memory.{MemoryStore}
use better_token.Memory.Tokens.{
  delete_states, delete_state, find_states, save_state, consume_state_of_kind, get_state,
}
use better_token.Memory.Sessions.{ensure_session}
use better_token.Memory.Calls.{Call, perform_all}
use better_token.Run.{World}
use better_token.Manager.{Manager, AuthorizerOps}
use better_token.Manager.OnMemory.{memory_manager, reading}
use better_token.Manager.Nonce.{consume_nonce}
use better_token.Manager.Nonce.Replay.{consume_nonce-once}
use better_token.Manager.Refresh.{consume_usable_refresh_token}
use better_token.Manager.Refresh.Claim.{consume_usable_refresh_token-once}
use better_token.Manager.Access.{read_token_state, login, logout, logout_by_login_id}
use better_token.Manager.Access.KickedOut.{IsRid, logout_by_login_id-IsRid}
use better_token.Manager.Access.Stored.{LoggedIn, login-LoggedIn}
use better_token.Manager.Access.LoggedOut.{logout_final}
use better_token.Manager.Access.Reading.{IsUsable, read_token_state_sound}
use better_token.Tests.Data.{
  digest, user, filled, filled-IsConsistent, world_of, access_state, reading_at,
}

-- Grants everything.
abbrev authorizer : AuthorizerOps
authorizer = record { has_authority = λ c id a. ok true }

abbrev pub m : Manager MemoryStore
m = memory_manager default_config authorizer digest

abbrev pub world : World MemoryStore
world = world_of filled

-- The world in which a request has come in between.
abbrev calls : List (Call × better_token.Store.Reading)
calls = (Call.get (text "#n"), reading_at 150) ∷ []

abbrev after_nonce : World MemoryStore
after_nonce = world_of (perform_all calls (consume_nonce m (text " n") world).1.store)

-- The state that a login returned.
abbrev logged_in : Result TokenState → TokenState
logged_in (ok state) = state
logged_in (err e) = access_state

consume_nonce-once_example : ¬ ((consume_nonce m (text " n") after_nonce).0 ≡ ok access_state)
unfolding consume_nonce consume_state_of_kind Map.get perform_all save_state Map.put dec_text
    add_duration
consume_nonce-once_example =
    consume_nonce-once default_config authorizer digest (text " n") world after_nonce calls refl
      (tt, tt) refl

abbrev after_claim : World MemoryStore
after_claim = world_of (perform_all [] (consume_usable_refresh_token m (text "r") world).1.store)

consume_usable_refresh_token-once_example :
    ¬ ((consume_usable_refresh_token m (text "r") after_claim).0 ≡ ok access_state)
unfolding consume_usable_refresh_token consume_state_of_kind Map.get perform_all save_state Map.put
    dec_text Map.delete add_duration
consume_usable_refresh_token-once_example =
    consume_usable_refresh_token-once default_config authorizer digest (text "r") world after_claim
      [] refl tt refl

read_token_state_sound_example :
    (found : TokenState) × ((m.store.get_token_state (text "#a") (reading world) filled).0
      ≡ ok (some found))
    × IsUsable 100 found
unfolding read_token_state get_state Map.get perform_all save_state Map.put dec_text Map.delete
read_token_state_sound_example = read_token_state_sound m (text "a") false world refl

login-LoggedIn_example :
    LoggedIn default_config authorizer digest
      (text "u")
      (text " t")
      []
      (login m (text "u") (text " t") [] world)
      (logged_in (login m (text "u") (text " t") [] world).0)
unfolding login save_state ensure_session
login-LoggedIn_example =
    login-LoggedIn default_config authorizer digest (text "u") (text " t") [] world
      (logged_in (login m (text "u") (text " t") [] world).0) refl

abbrev after_logout : World MemoryStore
after_logout = world_of (perform_all calls (logout m (text "a") world).1.store)

logout_final_example : ¬ ((read_token_state m (text "a") true after_logout).0 ≡ ok access_state)
unfolding logout get_state Map.get perform_all save_state Map.put Map.delete delete_state
    find_states dec_subject
logout_final_example =
    logout_final default_config authorizer digest (text "a") world after_logout calls true
      filled-IsConsistent refl (tt, tt) refl

logout_by_login_id-IsRid_example :
    IsRid user (TokenKind.access ∷ []) (logout_by_login_id m (text " u") [] world).1.store
unfolding logout_by_login_id save_state dec_subject Map.get Map.put Map.delete perform_all dec_text
    delete_states
logout_by_login_id-IsRid_example =
    logout_by_login_id-IsRid default_config authorizer digest (text " u") [] world
      filled-IsConsistent refl
