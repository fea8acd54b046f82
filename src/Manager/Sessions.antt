-- ===== src/Manager/Sessions.antt =====
-- core/manager.go: the methods on sessions.
use better_token.Base.{Option, none, some, List, is_nil, if◌then◌else◌}
use better_token.Text.{Text, trim_space}
use better_token.Errors.{empty_session_id, session_not_found}
use better_token.State.{LoginSubject, normalize_subject, is_zero_subject, default_login_type}
use better_token.Session.{Session, clone_session}
use better_token.Options
use better_token.Run.{M, pure, raise, call, fail_if, ◌>>=◌, ◌>>◌}
use better_token.Manager.{Manager}

-- sessionOptions and WithSessionLoginType
pub record SessionOptions : Type 0 where
  pub login_type : Text

unfoldable pub with_session_login_type : Text → SessionOptions → SessionOptions
unfolding trim_space
with_session_login_type login_type opts =
    let value = trim_space login_type in
    if is_nil value then opts else record { login_type = value }

-- sessionSubject
unfoldable pub session_subject :
    Text → List (Option (SessionOptions → SessionOptions)) → LoginSubject
unfolding normalize_subject Options.apply
session_subject login_id opts =
    let session_opts = Options.apply (record { login_type = default_login_type }) opts in
    normalize_subject (record { login_id = login_id; login_type = session_opts.login_type })

module _ {S : Type 0} (m : Manager S) where
  -- Manager.GetSession
  found_session : Option Session → M S Session
  unfolding pure raise clone_session
  found_session none = raise session_not_found
  found_session (some session) = pure (clone_session session)

  unfoldable pub get_session : Text → List (Option (SessionOptions → SessionOptions)) → M S Session
  unfolding ◌>>=◌ ◌>>◌ fail_if call found_session trim_space session_subject
  get_session login_id opts =
      let id = trim_space login_id in
      do
        fail_if (is_nil id) empty_session_id
        found ← call (m.store.get_session (session_subject id opts))
        found_session found

  -- Manager.SaveSession
  unfoldable pub save_session : Option Session → M S Unit
  unfolding ◌>>◌ raise fail_if call clone_session normalize_subject is_zero_subject
  save_session none = raise empty_session_id
  save_session (some session) =
      let subject = normalize_subject session.subject in
      do
        fail_if (is_zero_subject subject) empty_session_id
        call (
            m.store.save_session (record (clone_session session) { subject = subject })
              m.config.timeout)

  -- Manager.DeleteSession
  unfoldable pub delete_session : Text → List (Option (SessionOptions → SessionOptions)) → M S Unit
  unfolding ◌>>◌ fail_if call trim_space session_subject
  delete_session login_id opts =
      let id = trim_space login_id in
      do
        fail_if (is_nil id) empty_session_id
        call (m.store.delete_session (session_subject id opts))
