-- ===== src/Token/Style.antt =====
-- token/generator.go: the styles of tokens.
pub mod Laws
use better_token.Base.{
  ℕ, zero, Bool, List, [], ◌∷◌, ◌++◌, is_nil, if◌then◌else◌, Option, none, some,
}
use better_token.Text.{Text, Bytes, text, trim_space}
use better_token.Time.{Time}
use better_token.Errors.{Error, Result, ok, err, generate_token, empty_random, unsupported_style}
use better_token.Rand.{Entropy, random_string, draw_letters}
use better_token.Token.{TokenStyle, TokenConfig, or_length}
use better_token.Token.Format.{decimal, hex}
use better_token.Token.Jwt.{JwtLib, new_jwt_config, jwt_config}
use better_token.Token.Jwt as Jwt

-- What a call of a generator is given by its environment: the random source, the clock as time.Time and
-- in milliseconds and nanoseconds since 1970, an id of uuid.NewString, and the digest of crypto/sha256
-- in hexadecimal digits.
pub record Source : Type 0 where
  pub entropy : Entropy
  pub now : Time
  pub unix_milli : ℕ
  pub unix_nano : ℕ
  pub uuid : Text
  pub sha256_hex : Text → Text

abbrev pub tiktok_charset : Text
tiktok_charset = text "0123456789ABCDEFGHIJKLMNOPQRSTUVWXYZabcdefghijklmnopqrstuvwxyz"

-- generateSimpleToken
abbrev simple_of : Result Text → Result Text
simple_of (err e) = err (generate_token e)
simple_of (ok s) = if is_nil s then err empty_random else ok s

unfoldable pub generate_simple_token : Source → ℕ → Result Text
unfolding random_string
generate_simple_token src length = simple_of (random_string src.entropy (or_length length))

-- generateTimestampToken
unfoldable pub timestamp_token : ℕ → Text → Bytes → Text
unfolding decimal hex trim_space
timestamp_token milli user_id bytes =
    decimal milli ++ (b'_' ∷ (trim_space user_id ++ (b'_' ∷ hex bytes)))

abbrev with_bytes : Result Bytes → (Bytes → Text) → Result Text
with_bytes (err e) f = err (generate_token e)
with_bytes (ok bytes) f = ok (f bytes)

unfoldable pub generate_timestamp_token : Source → Text → Result Text
unfolding timestamp_token
generate_timestamp_token src user_id =
    with_bytes (src.entropy.read 8) (timestamp_token src.unix_milli user_id)

-- generateHashToken
unfoldable pub hashed_text : ℕ → Text → Bytes → Text
unfolding decimal hex trim_space
hashed_text nano user_id bytes = trim_space user_id ++ (b':' ∷ (decimal nano ++ (b':' ∷ hex bytes)))

unfoldable pub generate_hash_token : Source → Text → Result Text
unfolding hashed_text
generate_hash_token src user_id =
    with_bytes (src.entropy.read 16)
      (λ bytes. src.sha256_hex (hashed_text src.unix_nano user_id bytes))

-- generateTiktokToken
unfoldable pub generate_tiktok_token : Source → Result Text
unfolding draw_letters
generate_tiktok_token src = draw_letters src.entropy tiktok_charset generate_token 11 0

-- TokenGenerator.GenerateToken
module _ {T : Type 0} (lib : JwtLib T) (config : TokenConfig) where
  of_style : TokenStyle → Source → Text → T → Result Text
  unfolding generate_simple_token generate_timestamp_token generate_hash_token generate_tiktok_token
      Jwt.generate_token new_jwt_config jwt_config
  of_style TokenStyle.jwt src user_id payload =
      Jwt.generate_token lib (new_jwt_config (some (jwt_config config) ∷ [])) src.now src.uuid
        user_id payload
  of_style TokenStyle.simple src user_id payload =
      generate_simple_token src config.simple_token_length
  of_style TokenStyle.uuid src user_id payload = ok src.uuid
  of_style TokenStyle.timestamp src user_id payload = generate_timestamp_token src user_id
  of_style TokenStyle.hash src user_id payload = generate_hash_token src user_id
  of_style TokenStyle.tiktok src user_id payload = generate_tiktok_token src
  of_style (TokenStyle.other s) src user_id payload = err (unsupported_style s)

  unfoldable pub generate : Source → Text → T → Result Text
  unfolding of_style
  generate src user_id payload = of_style config.token_style src user_id payload

-- GenerateJWTSecret, over what jwtx.GenerateJWTSecret gives for a length
abbrev secret_length : ℕ → ℕ
secret_length zero = 32
secret_length length = length

unfoldable pub generate_jwt_secret : (ℕ → Bytes) → ℕ → Text
unfolding hex
generate_jwt_secret random_bytes length = hex (random_bytes (secret_length length))
