-- ===== src/Token.antt =====
-- token/generator.go: the configuration of token generation. The children hold the styles and the JWTs.
pub mod Format
pub mod Jwt
pub mod Style
use better_token.Base.{ℕ, zero, ◌*◌, Bool, List, [], ◌∷◌, Option, is_nil, if◌then◌else◌}
use better_token.Text.{Text, text}
use better_token.Time.{Duration, nanoseconds, is_zero_duration}
use better_token.Options

-- TokenStyle: any other string, the empty one too, is `other`.
pub data TokenStyle : Type 0 where
  simple timestamp uuid hash jwt tiktok : TokenStyle
  other : Text → TokenStyle

abbrev pub default_simple_length : ℕ
default_simple_length = 16

abbrev pub default_issuer : Text
default_issuer = text "hurry-app"

abbrev pub default_algorithm : Text
default_algorithm = text "HS256"

abbrev pub default_expiry : Duration
default_expiry = nanoseconds (7 * 24 * 3600 * 1000000000)

abbrev default_token_name : Text
default_token_name = text "token"

-- A `simple_token_length` that is not positive is 0.
pub record TokenConfig : Type 0 where
  pub jwt_issuer : Text
  pub jwt_secret_key : Text
  pub jwt_audience : List Text
  pub jwt_algorithm : Text
  pub jwt_expiry : Duration
  pub token_prefix : Text
  pub token_style : TokenStyle
  pub token_name : Text
  pub simple_token_length : ℕ

-- DefaultTokenConfig
abbrev pub default_token_config : TokenConfig
default_token_config = record {
  jwt_issuer = default_issuer;
  jwt_secret_key = [];
  jwt_audience = [];
  jwt_algorithm = default_algorithm;
  jwt_expiry = default_expiry;
  token_prefix = [];
  token_style = TokenStyle.simple;
  token_name = default_token_name;
  simple_token_length = default_simple_length;
}

-- NewTokenConfig
unfoldable pub new_token_config : List (Option (TokenConfig → TokenConfig)) → TokenConfig
unfolding Options.apply
new_token_config opts = Options.apply default_token_config opts

abbrev pub or_text : Text → Text → Text
or_text s d = if is_nil s then d else s

abbrev pub or_expiry : Duration → Duration
or_expiry d = if is_zero_duration d then default_expiry else d

abbrev or_simple : TokenStyle → TokenStyle
or_simple (TokenStyle.other []) = TokenStyle.simple
or_simple style = style

abbrev pub or_length : ℕ → ℕ
or_length zero = default_simple_length
or_length n = n

-- WithJWTIssuer and the other options of the configuration
unfoldable pub with_jwt_issuer : Text → TokenConfig → TokenConfig
with_jwt_issuer issuer c = record c { jwt_issuer = or_text issuer default_issuer }

unfoldable pub with_jwt_secret_key : Text → TokenConfig → TokenConfig
with_jwt_secret_key secret_key c = record c { jwt_secret_key = secret_key }

unfoldable pub with_jwt_audience : List Text → TokenConfig → TokenConfig
with_jwt_audience audience c = record c { jwt_audience = audience }

unfoldable pub with_jwt_algorithm : Text → TokenConfig → TokenConfig
with_jwt_algorithm algorithm c = record c { jwt_algorithm = or_text algorithm default_algorithm }

unfoldable pub with_jwt_expiry : Duration → TokenConfig → TokenConfig
with_jwt_expiry expiry c = record c { jwt_expiry = or_expiry expiry }

unfoldable pub with_token_prefix : Text → TokenConfig → TokenConfig
with_token_prefix prefix c = record c { token_prefix = prefix }

unfoldable pub with_token_style : TokenStyle → TokenConfig → TokenConfig
with_token_style style c = record c { token_style = or_simple style }

unfoldable pub with_token_name : Text → TokenConfig → TokenConfig
with_token_name name c = record c { token_name = or_text name default_token_name }

unfoldable pub with_simple_token_length : ℕ → TokenConfig → TokenConfig
with_simple_token_length length c = record c { simple_token_length = or_length length }

-- WithTokenConfig: each option in turn.
unfoldable pub with_token_config : TokenConfig → TokenConfig → TokenConfig
unfolding with_jwt_issuer with_jwt_secret_key with_jwt_audience with_jwt_algorithm with_jwt_expiry
    with_token_prefix with_token_style with_token_name with_simple_token_length
with_token_config config c =
    let c1 = with_jwt_issuer config.jwt_issuer c in
    let c2 = with_jwt_secret_key config.jwt_secret_key c1 in
    let c3 = with_jwt_audience config.jwt_audience c2 in
    let c4 = with_jwt_algorithm config.jwt_algorithm c3 in
    let c5 = with_jwt_expiry config.jwt_expiry c4 in
    let c6 = with_token_prefix config.token_prefix c5 in
    let c7 = with_token_style config.token_style c6 in
    let c8 = with_token_name config.token_name c7 in
    with_simple_token_length config.simple_token_length c8
