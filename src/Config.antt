-- ===== src/Config.antt =====
-- core/config.go, with the groups of core/refresh.go and core/nonce.go.
use better_token.Base.{ℕ, ◌*◌, Bool, true, false, not, ◌&&◌, if◌then◌else◌, leb}
use better_token.Text.{Text, text}
use better_token.Time.{Duration, nanoseconds, no_duration, is_positive, is_zero_duration}

abbrev pub second : ℕ
second = 1000000000

pub record RefreshConfig : Type 0 where
  pub timeout : Duration
  pub rotate_refresh_token : Bool
  pub revoke_access_token_on_refresh : Bool
  pub revoke_refresh_on_logout : Bool

-- DefaultRefreshConfig
abbrev pub default_refresh_config : RefreshConfig
default_refresh_config = record {
  timeout = nanoseconds (7 * 24 * 3600 * second);
  rotate_refresh_token = true;
  revoke_access_token_on_refresh = true;
  revoke_refresh_on_logout = true;
}

-- RefreshConfig.withDefaults
abbrev default_timeout : RefreshConfig → RefreshConfig
default_timeout c =
    if is_zero_duration c.timeout then record c { timeout = default_refresh_config.timeout } else c

abbrev default_flags : RefreshConfig → RefreshConfig
default_flags c =
    if not c.rotate_refresh_token
      && not c.revoke_access_token_on_refresh
      && not c.revoke_refresh_on_logout
    then record default_refresh_config { timeout = c.timeout }
    else c

unfoldable pub refresh_with_defaults : RefreshConfig → RefreshConfig
refresh_with_defaults c = default_flags (default_timeout c)

-- `length` is an int: what is not positive is 0 here.
pub record NonceConfig : Type 0 where
  pub timeout : Duration
  pub length : ℕ

-- DefaultNonceConfig
abbrev pub default_nonce_config : NonceConfig
default_nonce_config = record { timeout = nanoseconds (5 * 60 * second); length = 32 }

-- NonceConfig.withDefaults
unfoldable pub nonce_with_defaults : NonceConfig → NonceConfig
nonce_with_defaults c = record {
  timeout = if is_positive c.timeout then c.timeout else default_nonce_config.timeout;
  length = if leb c.length 0 then default_nonce_config.length else c.length;
}

pub record Config : Type 0 where
  pub token_name : Text
  pub token_prefix : Text
  pub timeout : Duration
  pub active_timeout : Duration
  pub auto_renew : Bool
  pub concurrent : Bool
  pub require_nonce : Bool
  pub refresh : RefreshConfig
  pub nonce : NonceConfig

-- DefaultConfig
abbrev pub default_config : Config
default_config = record {
  token_name = text "token";
  token_prefix = text "";
  timeout = nanoseconds (30 * 24 * 3600 * second);
  active_timeout = no_duration;
  auto_renew = false;
  concurrent = true;
  require_nonce = false;
  refresh = default_refresh_config;
  nonce = default_nonce_config;
}
