-- ===== src/Token/Jwt.antt =====
-- token/jwt.go: JSON web tokens. The libraries jwtx and jwt, which sign and read them, are a parameter:
-- what they make of a signing method, a key and claims, and what they read from a text.
pub mod Laws
pub mod Own
use better_token.Base.{
  ℕ, ◌-◌, Bool, true, false, not, ◌&&◌, ◌||◌, List, [], ◌∷◌, Option, none, some, is_nil, ite, leb,
  ◌==◌, map, if◌then◌else◌,
}
use better_token.Text.{Text, Bytes, text, dec_text, trim_space}
use better_token.Time.{Time, Duration, add_duration}
use better_token.Errors.{
  Error, Result, ok, err, empty_user_id, empty_jwt, empty_jwt_secret, invalid_token, invalid_issuer,
  invalid_audience, unsupported_algorithm, parse_failed, verify_failed,
}
use better_token.Options
use better_token.Token.{TokenConfig, default_issuer, default_algorithm, default_expiry, or_expiry}

-- Claims, with the fields of jwt.RegisteredClaims
pub record Claims (T : Type 0) : Type 0 where
  pub payload : T
  pub expires_at : Time
  pub issued_at : Time
  pub not_before : Time
  pub issuer : Text
  pub audience : List Text
  pub subject : Text
  pub id : Text

pub record JwtConfig : Type 0 where
  pub secret_key : Text
  pub issuer : Text
  pub audience : List Text
  pub algorithm : Text
  pub expiry : Duration

-- DefaultJwtConfig
abbrev pub default_jwt_config : JwtConfig
default_jwt_config = record {
  secret_key = [];
  issuer = default_issuer;
  audience = [];
  algorithm = default_algorithm;
  expiry = default_expiry;
}

-- NewJwtConfig
unfoldable pub new_jwt_config : List (Option (JwtConfig → JwtConfig)) → JwtConfig
unfolding Options.apply
new_jwt_config opts = Options.apply default_jwt_config opts

abbrev pub or_unless_blank : Text → Text → Text
or_unless_blank s d = if is_nil (trim_space s) then d else s

-- WithSecretKey and the other options
unfoldable pub with_secret_key : Text → JwtConfig → JwtConfig
with_secret_key secret_key c = record c { secret_key = secret_key }

unfoldable pub with_issuer : Text → JwtConfig → JwtConfig
with_issuer issuer c = record c { issuer = or_unless_blank issuer default_issuer }

unfoldable pub with_audience : List Text → JwtConfig → JwtConfig
with_audience audience c = record c { audience = audience }

unfoldable pub with_algorithm : Text → JwtConfig → JwtConfig
with_algorithm algorithm c = record c { algorithm = or_unless_blank algorithm default_algorithm }

unfoldable pub with_expiry : Duration → JwtConfig → JwtConfig
with_expiry expiry c = record c { expiry = or_expiry expiry }

-- WithJwtConfig, and TokenConfig.jwtConfig, which set each field in turn
unfoldable pub with_jwt_config : JwtConfig → JwtConfig → JwtConfig
unfolding with_secret_key with_issuer with_audience with_algorithm with_expiry
with_jwt_config config c =
    let c1 = with_secret_key config.secret_key c in
    let c2 = with_issuer config.issuer c1 in
    let c3 = with_audience config.audience c2 in
    let c4 = with_algorithm config.algorithm c3 in with_expiry config.expiry c4

unfoldable pub jwt_config : TokenConfig → JwtConfig → JwtConfig
unfolding with_secret_key with_issuer with_audience with_algorithm with_expiry
jwt_config config jwt =
    let c1 = with_secret_key config.jwt_secret_key jwt in
    let c2 = with_issuer config.jwt_issuer c1 in
    let c3 = with_audience config.jwt_audience c2 in
    let c4 = with_algorithm config.jwt_algorithm c3 in with_expiry config.jwt_expiry c4

-- jwtSigningMethod
pub data SigningMethod : Type 0 where
  hs256 hs384 hs512 : SigningMethod

-- unicode.ToUpper as far as an ASCII letter comes out of it: the names compared with are ASCII.
abbrev upper : ℕ → ℕ
upper c =
    if leb b'a' c && leb c b'z'
    then c - 32
    else if c == 0x131
    then b'I'
    else if c == 0x17f
    then b'S'
    else c

unfoldable pub signing_method : Text → Result SigningMethod
unfolding dec_text
signing_method algorithm =
    let name = map upper (trim_space algorithm) in
    ite (dec_text name (text "HS256")) (ok hs256) (
      ite (dec_text name (text "HS384")) (ok hs384)
        (ite (dec_text name (text "HS512")) (ok hs512) (err (unsupported_algorithm algorithm))))

-- What jwtx.ParseToken gives: the claims, if they are of the type asked for, and `token.Valid`.
pub record Parsed (T : Type 0) : Type 0 where
  pub claims : Option (Claims T)
  pub valid : Bool

-- jwtx.GenerateToken, jwtx.ParseToken and jwt.NewNumericDate
pub record JwtLib (T : Type 0) : Type 0 where
  pub sign : SigningMethod → Text → Claims T → Result Text
  pub parse : SigningMethod → Text → Text → Result (Parsed T)
  pub numeric_date : Time → Time

abbrev pub same : Text → Text → Bool
same a b = ite (dec_text a b) true false

abbrev pub is_among : Text → List Text → Bool
is_among want [] = false
is_among want (got ∷ rest) = same got want || is_among want rest

-- audienceMatches
unfoldable pub audience_matches : List Text → List Text → Bool
unfolding dec_text
audience_matches actual [] = false
audience_matches actual (expected ∷ rest) =
    let want = trim_space expected in
    (not (is_nil want) && is_among want actual) || audience_matches actual rest

module _ {T : Type 0} (lib : JwtLib T) (conf : JwtConfig) where
  -- JwtManager.validateRegisteredClaims
  unfoldable pub validate_registered_claims : Claims T → Result (Unit {0})
  unfolding audience_matches
  validate_registered_claims claims =
      let issuer = trim_space conf.issuer in
      if not (is_nil issuer) && not (same claims.issuer issuer)
      then err (invalid_issuer claims.issuer)
      else if not (is_nil conf.audience) && not (audience_matches claims.audience conf.audience)
      then err (invalid_audience claims.audience)
      else ok tt

  -- JwtManager.GenerateToken, at the instant `now` and with the id that uuid.NewString gives
  unfoldable pub claims_of : Time → Text → Text → T → Claims T
  claims_of now id user_id payload = record {
    payload = payload;
    expires_at = lib.numeric_date (add_duration now conf.expiry);
    issued_at = lib.numeric_date now;
    not_before = lib.numeric_date now;
    issuer = conf.issuer;
    audience = conf.audience;
    subject = user_id;
    id = id;
  }

  abbrev with_method : {A : Type 0} → Result SigningMethod → (SigningMethod → Result A) → Result A
  with_method (err e) f = err e
  with_method (ok method) f = f method

  unfoldable pub generate_token : Time → Text → Text → T → Result Text
  unfolding signing_method claims_of
  generate_token now id user_id payload =
      let user = trim_space user_id in
      let secret = trim_space conf.secret_key in
      if is_nil user
      then err empty_user_id
      else if is_nil secret
      then err empty_jwt_secret
      else with_method (signing_method conf.algorithm)
          (λ method. lib.sign method secret (claims_of now id user payload))

  -- JwtManager.ParseToken
  abbrev validated : Claims T → Result (Unit {0}) → Result (Claims T)
  validated claims (ok u) = ok claims
  validated claims (err e) = err e

  accept : Option (Claims T) → Bool → Result (Claims T)
  unfolding validate_registered_claims
  accept (some claims) true = validated claims (validate_registered_claims claims)
  accept claims valid = err invalid_token

  abbrev read : Result (Parsed T) → Result (Claims T)
  unfolding accept
  read (err e) = err (parse_failed e)
  read (ok parsed) = accept parsed.claims parsed.valid

  unfoldable pub parse_token : Text → Result (Claims T)
  unfolding signing_method read
  parse_token token =
      let secret = trim_space conf.secret_key in
      if is_nil (trim_space token)
      then err empty_jwt
      else if is_nil secret
      then err empty_jwt_secret
      else with_method (signing_method conf.algorithm)
          (λ method. read (lib.parse method secret token))

  -- JwtManager.VerifyToken
  abbrev verified : Result (Claims T) → Result Bool
  verified (ok claims) = ok true
  verified (err e) = err (verify_failed e)

  unfoldable pub verify_token : Text → Result Bool
  unfolding parse_token
  verify_token token = verified (parse_token token)
