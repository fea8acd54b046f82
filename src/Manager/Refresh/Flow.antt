-- ===== src/Manager/Refresh/Flow.antt =====
-- core/refresh.go: `Manager.Refresh`, from the claim of the refresh token to the new pair.
use mathlib.Core.Option
use better_token.Base.{Bool, false, not, ◌&&◌, Option, none, some, List, [], is_nil, if◌then◌else◌}
use better_token.Text.{Text, trim_space}
use better_token.Time.{Time}
use better_token.Errors.{
  Error, Result, ok, err, empty_token, empty_refresh_token, next_refresh_token_required,
  next_refresh_token_reuse, next_access_token_reuse, restore_refresh_token, join,
}
use better_token.State.{RefreshInfo, TokenState, subject_of, touch, mark_consumed}
use better_token.Event.{EventType}
use better_token.Options
use better_token.Run.{
  M, World, caller, detached, pure, call, attempt, or_cleanup, now, publish, fail_if, when, ◌>>=◌,
  ◌>>◌,
}
use better_token.Manager.{
  Manager, store_key, update_token_state, remaining_ttl, with_plaintext_token,
}
use better_token.Manager.Access.{login_with}
use better_token.Manager.Access.Opts.{LoginOptions}
use better_token.Manager.Refresh.{
  LoginResult, RefreshFlowOptions, no_flow_options, empty_refresh_info, same, bound_access,
  new_refresh_state, validate_next_access_token, load_usable_refresh_token,
  consume_usable_refresh_token,
}

abbrev or_text : Text → Text → Text
or_text s d = if is_nil s then d else s

abbrev rotate_info : Text → Time → RefreshInfo → RefreshInfo
rotate_info from t i = record i { rotated_from = from; last_used_at = some t }

abbrev rotated : Text → Time → TokenState → TokenState
rotated from t state = record state {
  refresh_info = Option.map (rotate_info from t) state.refresh_info;
}

module _ {S : Type 0} (m : Manager S) where
  -- The old access token goes, if it is to be revoked.
  revoke_access : TokenState → M S Unit
  unfolding ◌>>◌ when call publish
  revoke_access state =
      when (m.config.refresh.revoke_access_token_on_refresh && not (is_nil (bound_access state)))
        (do
          call (m.store.delete_token_state (bound_access state))
          publish EventType.logout (subject_of state) [] none)

  -- What the internal login of a refresh is given.
  abbrev login_options : TokenState → RefreshFlowOptions → LoginOptions
  login_options state flow = record {
    preserve_refresh = if m.config.refresh.rotate_refresh_token then [] else state.token;
    login_type = state.login_type;
    device = or_text flow.device state.device;
    metadata = or_text flow.metadata state.metadata;
    nonce = [];
  }

  -- The refresh state that is stored: a new one, or the old one with the new access token.
  reused : TokenState → TokenState → Time → TokenState
  reused state access t = record (touch t state) {
    refresh_info = some (record (Option.get_or state.refresh_info empty_refresh_info) {
      access_token = access.token;
      last_used_at = some t;
    });
    device = access.device;
    metadata = access.metadata;
  }

  save_rotated : Text → Text → TokenState → Time → M S TokenState
  unfolding ◌>>=◌ ◌>>◌ call attempt or_cleanup pure new_refresh_state remaining_ttl store_key
  save_rotated old_refresh next_refresh access t = do
    fresh ← new_refresh_state m next_refresh access
    let next = rotated (store_key m old_refresh) t fresh
    or_cleanup (call (m.store.save_token_state next (remaining_ttl t next)))
        (attempt (call (m.store.delete_token_state access.token)))
    pure next

  save_reused : TokenState → TokenState → TokenState → Time → M S TokenState
  unfolding ◌>>◌ call attempt or_cleanup pure update_token_state remaining_ttl reused
  save_reused expected state access t =
      let next = reused state access t in
      do
        or_cleanup (update_token_state m caller expected next (remaining_ttl t next))
            (attempt (call (m.store.delete_token_state access.token)))
        pure next

  save_refresh :
      Text → RefreshFlowOptions → TokenState → TokenState → TokenState → Time → M S TokenState
  unfolding save_rotated save_reused
  save_refresh old_refresh flow expected state access t =
      if m.config.refresh.rotate_refresh_token
      then save_rotated old_refresh flow.next_refresh_token access t
      else save_reused expected state access t

  -- The part of `Refresh` after the claim, which the deferred function of the reusable mode guards.
  issue : Text → Text → RefreshFlowOptions → TokenState → TokenState → M S LoginResult
  unfolding ◌>>=◌ ◌>>◌ now publish pure validate_next_access_token revoke_access login_with
      save_refresh with_plaintext_token
  issue refresh_token next_access flow expected state = do
    validate_next_access_token m state next_access flow.next_refresh_token
    revoke_access state
    access ← login_with m state.login_id next_access (login_options state flow) false
    t ← now
    next ← save_refresh refresh_token flow expected state access t
    publish EventType.refresh (subject_of access) access.token none
    pure (record {
      token_state = with_plaintext_token access next_access;
      refresh_state = with_plaintext_token next (
          if m.config.refresh.rotate_refresh_token then flow.next_refresh_token else refresh_token);
    })

  -- The deferred function: on an error the claim is given back, on a context of its own.
  restore : TokenState → TokenState → M S Unit
  unfolding ◌>>=◌ now update_token_state remaining_ttl
  restore expected original = do
    t ← now
    update_token_state m detached expected original (remaining_ttl t original)

  abbrev joined : {A : Type 0} → Error → Result (Unit {0}) × World S → Result A × World S
  joined e (ok u, w) = (err e, w)
  joined e (err e', w) = (err (join e (restore_refresh_token e')), w)

  unfoldable pub or_restore : {A : Type 0} → Bool → TokenState → TokenState → M S A → M S A
  unfolding restore
  or_restore guarded expected original body w =
      let (r, w') = body w in
      elim r [
        | ok a ↦ (ok a, w')
        | err e ↦ if guarded then joined e (restore expected original w') else (err e, w')
      ]

  claim_and_issue : Text → Text → RefreshFlowOptions → M S LoginResult
  unfolding ◌>>=◌ ◌>>◌ now mark_consumed load_usable_refresh_token consume_usable_refresh_token
      validate_next_access_token or_restore issue
  claim_and_issue refresh_token next_access flow = do
    seen ← load_usable_refresh_token m refresh_token
    validate_next_access_token m seen next_access flow.next_refresh_token
    state ← consume_usable_refresh_token m refresh_token
    t ← now
    let expected = mark_consumed t state
    or_restore (not m.config.refresh.rotate_refresh_token) expected state
        (issue refresh_token next_access flow expected state)

  -- Manager.Refresh
  unfoldable pub refresh :
      Text → Text → List (Option (RefreshFlowOptions → RefreshFlowOptions)) → M S LoginResult
  unfolding ◌>>◌ fail_if trim_space Options.apply claim_and_issue same
  refresh refresh_token next_access opts =
      let old = trim_space refresh_token in
      let next = trim_space next_access in
      let flow = Options.apply no_flow_options opts in
      let rotate = m.config.refresh.rotate_refresh_token in
      do
        fail_if (is_nil old) empty_refresh_token
        fail_if (is_nil next) empty_token
        fail_if (rotate && is_nil flow.next_refresh_token) next_refresh_token_required
        fail_if (rotate && same flow.next_refresh_token old) next_refresh_token_reuse
        fail_if (same next old) next_access_token_reuse
        fail_if (rotate && same next flow.next_refresh_token) next_refresh_token_reuse
        claim_and_issue old next flow
