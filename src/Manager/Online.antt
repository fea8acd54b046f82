-- ===== src/Manager/Online.antt =====
-- core/online.go: the list of a subject's access tokens, logout by device, and the online marks.
use better_token.Base.{
  ℕ, suc, Bool, true, false, Option, none, some, List, [], ◌∷◌, ite, is_nil, ltb, if◌then◌else◌,
}
use better_token.Text.{Text, dec_text, trim_space}
use better_token.Time.{Time}
use better_token.Errors.{empty_login_id, empty_device, unsupported_kind}
use better_token.State.{
  normalize_subject, default_login_type, TokenKind, dec_kind, OnlineInfo, TokenState, is_expired_at,
  subject_of, mark_online, mark_offline,
}
use better_token.Event.{EventType}
use better_token.Options
use better_token.Run.{M, caller, pure, call, now, publish, fail_if, when, ◌>>=◌, ◌>>◌}
use better_token.Manager.{
  Manager, update_token_state, revoke_refresh_for_access_token, remaining_ttl,
}
use better_token.Manager.Access.{read_token_state}
use better_token.Manager.Access.Opts.{LogoutOptions, default_logout_options}

-- listTokenOptions and WithListLoginType
pub record ListTokenOptions : Type 0 where
  pub login_type : Text

abbrev pub default_list_options : ListTokenOptions
default_list_options = record { login_type = default_login_type }

unfoldable pub with_list_login_type : Text → ListTokenOptions → ListTokenOptions
unfolding trim_space
with_list_login_type login_type opts =
    let value = trim_space login_type in
    if is_nil value then opts else record { login_type = value }

-- The loop of `ListTokenStates`.
unfoldable pub unexpired : Time → List TokenState → List TokenState
unfolding is_expired_at
unexpired t [] = []
unexpired t (state ∷ rest) =
    let others = unexpired t rest in
    if is_expired_at state.expires_at t then others else state ∷ others

module _ {S : Type 0} (m : Manager S) where
  -- Manager.ListTokenStates
  unfoldable pub list_token_states :
      Text → List (Option (ListTokenOptions → ListTokenOptions)) → M S (List TokenState)
  unfolding ◌>>=◌ ◌>>◌ fail_if call now pure trim_space normalize_subject Options.apply unexpired
  list_token_states login_id opts =
      let id = trim_space login_id in
      let list_opts = Options.apply default_list_options opts in
      do
        fail_if (is_nil id) empty_login_id
        states ← call (
            m.store.find_token_states
              (normalize_subject (record { login_id = id; login_type = list_opts.login_type }))
              (TokenKind.access ∷ []))
        t ← now
        pure (unexpired t states)

  -- The loop of `LogoutByDevice`: how many tokens it deletes.
  delete_state : TokenState → M S Unit
  unfolding ◌>>◌ call revoke_refresh_for_access_token
  delete_state state = do
    call (m.store.delete_token_state state.token)
    revoke_refresh_for_access_token m state

  on_device : Text → TokenState → Bool
  unfolding trim_space dec_text
  on_device device state = ite (dec_text (trim_space state.device) device) true false

  unfoldable pub delete_on_device : Text → List TokenState → ℕ → M S ℕ
  unfolding ◌>>◌ pure when delete_state on_device
  delete_on_device device [] deleted = pure deleted
  delete_on_device device (state ∷ rest) deleted =
      let here = on_device device state in
      do
        when here (delete_state state)
        delete_on_device device rest (if here then suc deleted else deleted)

  -- Manager.LogoutByDevice
  unfoldable pub logout_by_device :
      Text → Text → List (Option (LogoutOptions → LogoutOptions)) → M S Unit
  unfolding ◌>>=◌ ◌>>◌ fail_if when call publish trim_space normalize_subject Options.apply
      delete_on_device
  logout_by_device login_id device opts =
      let id = trim_space login_id in
      let dev = trim_space device in
      let logout_opts = Options.apply default_logout_options opts in
      let subject =
        normalize_subject (record { login_id = id; login_type = logout_opts.login_type }) in
      do
        fail_if (is_nil id) empty_login_id
        fail_if (is_nil dev) empty_device
        states ← call (m.store.find_token_states subject (TokenKind.access ∷ []))
        deleted ← delete_on_device dev states 0
        when (ltb 0 deleted) (publish EventType.kick_out subject [] (some dev))

  -- Manager.MarkOnline and MarkOffline
  mark : (Time → TokenState → TokenState) → EventType → Text → M S Unit
  unfolding ◌>>=◌ ◌>>◌ fail_if now read_token_state update_token_state remaining_ttl publish
      dec_kind
  mark change event token = do
    state ← read_token_state m token false
    fail_if (ite (dec_kind state.kind TokenKind.access) false true) unsupported_kind
    t ← now
    let next = change t state
    update_token_state m caller state next (remaining_ttl t next)
    publish event (subject_of next) next.token none

  unfoldable pub mark_token_online : Text → OnlineInfo → M S Unit
  unfolding mark mark_online
  mark_token_online token info = mark (λ t. mark_online t info) EventType.online token

  unfoldable pub mark_token_offline : Text → M S Unit
  unfolding mark mark_offline
  mark_token_offline token = mark mark_offline EventType.offline token
