-- ===== src/State.antt =====
-- core/token_state.go, core/state_lifetime.go, core/login_subject.go and core/metadata.go: the one
-- model of access, refresh and nonce tokens. A pointer to a struct that may be nil is an `Option`;
-- a copy of a value is the value, so what `Clone` has to keep apart is apart here for nothing. An
-- instant is in UTC already, so `UTC()` changes nothing.
pub mod Lifetime
use mathlib.Core.Option
use better_token.Base.{
  ℕ, ◌≡◌, Bool, true, false, not, ◌&&◌, ◌||◌, Option, none, some, List, [], ◌∷◌, ℕ_discrete, ite,
  is_nil, if◌then◌else◌,
}
use better_token.Text.{Text, Bytes, text, trim_space}
use better_token.Time.{Time, Duration, is_positive, add_duration, before}

-- DefaultLoginType
abbrev pub default_login_type : Text
default_login_type = text "login"

pub record LoginSubject : Type 0 where
  pub login_id : Text
  pub login_type : Text

unfoldable pub dec_subject : Discrete LoginSubject
unfolding ℕ_discrete
dec_subject = hlevel ℕ_discrete

abbrev pub or_default : Text → Text → Text
or_default s d = if is_nil s then d else s

-- LoginSubject.Normalize
unfoldable pub normalize_subject : LoginSubject → LoginSubject
normalize_subject s = record {
  login_id = trim_space s.login_id;
  login_type = or_default (trim_space s.login_type) default_login_type;
}

-- LoginSubject.IsZero
unfoldable pub is_zero_subject : LoginSubject → Bool
is_zero_subject s = is_nil (trim_space s.login_id)

-- TokenKind: `unset` is the empty string, and `other` any string that has no constant.
pub data TokenKind : Type 0 where
  unset access refresh nonce : TokenKind
  other : ℕ → TokenKind

unfoldable pub dec_kind : Discrete TokenKind
unfolding ℕ_discrete
dec_kind = hlevel ℕ_discrete

-- TokenStatus
pub data TokenStatus : Type 0 where
  unset active revoked consumed : TokenStatus
  other : ℕ → TokenStatus

pub record RefreshInfo : Type 0 where
  pub access_token : Text
  pub rotated_from : Text
  pub rotated_to : Text
  pub last_used_at : Option Time
  pub revoked_at : Option Time

pub record NonceInfo : Type 0 where
  pub purpose : Text
  pub consumed_at : Option Time

pub record OnlineInfo : Type 0 where
  pub online_at : Option Time
  pub offline_at : Option Time
  pub connection_id : Text
  pub user_agent : Text
  pub ip : Text

pub record TokenState : Type 0 where
  pub token : Text
  pub kind : TokenKind
  pub login_id : Text
  pub login_type : Text
  pub device : Text
  pub created_at : Time
  pub last_active_at : Time
  pub expires_at : Option Time
  pub status : TokenStatus
  pub metadata : Bytes
  pub refresh_info : Option RefreshInfo
  pub nonce_info : Option NonceInfo
  pub online_info : Option OnlineInfo

-- reflect.DeepEqual on states
unfoldable pub dec_state : Discrete TokenState
unfolding ℕ_discrete
dec_state = hlevel ℕ_discrete

-- TokenState.Normalize
abbrev pub default_kind : TokenKind → TokenKind
default_kind TokenKind.unset = TokenKind.access
default_kind k = k

abbrev pub default_status : TokenStatus → TokenStatus
default_status TokenStatus.unset = TokenStatus.active
default_status s = s

unfoldable pub normalize_state : TokenState → TokenState
normalize_state s = record s {
  kind = default_kind s.kind;
  status = default_status s.status;
  login_type = or_default s.login_type default_login_type;
}

-- stateLifetime.IsExpired
unfoldable pub is_expired_at : Option Time → Time → Bool
is_expired_at none now = false
is_expired_at (some expires) now = not (before now expires)

-- stateLifetime.EffectiveExpiresAt
abbrev pub deadline : Time → Duration → Option Time
deadline now ttl = if is_positive ttl then some (add_duration now ttl) else none

abbrev pub sooner : Option Time → Option Time → Option Time
sooner none candidate = candidate
sooner (some effective) none = some effective
sooner (some effective) (some candidate) =
    if before candidate effective then some candidate else some effective

unfoldable pub effective_expires_at : Option Time → Time → Duration → Option Time
effective_expires_at expires now ttl = sooner (deadline now ttl) expires

abbrev pub is_active_status : TokenStatus → Bool
is_active_status TokenStatus.active = true
is_active_status s = false

abbrev pub is_unset_status : TokenStatus → Bool
is_unset_status TokenStatus.unset = true
is_unset_status s = false

-- TokenState.IsRevoked, IsConsumed and IsActive
abbrev pub is_revoked : TokenState → Bool
is_revoked s = elim s.status [ TokenStatus.revoked ↦ true | _ ↦ false ]

abbrev pub is_consumed : TokenState → Bool
is_consumed s = elim s.status [ TokenStatus.consumed ↦ true | _ ↦ false ]

unfoldable pub is_active : TokenState → Time → Bool
is_active s now =
    not (is_expired_at s.expires_at now) && (is_unset_status s.status || is_active_status s.status)

-- TokenState.Subject
abbrev pub subject_of : TokenState → LoginSubject
subject_of s = record { login_id = s.login_id; login_type = s.login_type }

-- TokenState.Touch
abbrev pub touch : Time → TokenState → TokenState
touch now s = record s { last_active_at = now }

-- TokenState.MarkRevoked
abbrev set_revoked_at : Time → RefreshInfo → RefreshInfo
set_revoked_at now i = record i { revoked_at = some now }

abbrev set_consumed_at : Time → NonceInfo → NonceInfo
set_consumed_at now i = record i { consumed_at = some now }

unfoldable pub mark_revoked : Time → TokenState → TokenState
mark_revoked now s = record s {
  status = TokenStatus.revoked;
  refresh_info = Option.map (set_revoked_at now) s.refresh_info;
}

-- TokenState.MarkConsumed
unfoldable pub mark_consumed : Time → TokenState → TokenState
mark_consumed now s = record s {
  status = TokenStatus.consumed;
  nonce_info = Option.map (set_consumed_at now) s.nonce_info;
}

-- TokenState.MarkOnline
abbrev offline_before : Option OnlineInfo → Option Time
offline_before none = none
offline_before (some i) = i.offline_at

abbrev or_else : Option Time → Option Time → Option Time
or_else none t = t
or_else (some t) _ = some t

unfoldable pub mark_online : Time → OnlineInfo → TokenState → TokenState
mark_online now info s = record s {
  online_info = some (record info {
    online_at = some now;
    offline_at = or_else info.offline_at (offline_before s.online_info);
  });
  status = TokenStatus.active;
  last_active_at = now;
}

-- TokenState.MarkOffline
abbrev pub empty_online_info : OnlineInfo
empty_online_info = record {
  online_at = none;
  offline_at = none;
  connection_id = [];
  user_agent = [];
  ip = [];
}

unfoldable pub mark_offline : Time → TokenState → TokenState
mark_offline now s = record s {
  online_info =
      some (record (Option.get_or s.online_info empty_online_info) { offline_at = some now });
  last_active_at = now;
}

-- MatchKind of core/store.go
abbrev kind_among : TokenKind → List TokenKind → Bool
kind_among kind [] = false
kind_among kind (k ∷ kinds) = ite (dec_kind k kind) true (kind_among kind kinds)

unfoldable pub match_kind : TokenKind → List TokenKind → Bool
unfolding dec_kind
match_kind kind kinds = if is_nil kinds then true else kind_among kind kinds
