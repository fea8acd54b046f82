-- ===== src/Token/Style/Laws.antt =====
-- token/generator.go: what the tokens look like, and that timestamp tokens keep the random bytes apart.
use better_token.Base.{
  ℕ, ◌≡◌, inl, inr, refl, sym, ap, ◌∙◌, false, [], ◌∷◌, ◌++◌, is_nil, length, length-append,
  append_assoc, All, arith, Bool-cases, some,
}
use better_token.Text.{Text, Bytes, trim_space}
use better_token.Time.{is_zero_duration}
use better_token.Errors.{Result, ok, err, generate_token}
use better_token.Options
use better_token.Rand.Lengths.{
  Reads, Draws, IsUrlLetter, IsOf, random_string-Sized, draw_letters-Drawn,
}
use better_token.Token.{TokenStyle, TokenConfig, or_length, default_issuer, default_algorithm}
use better_token.Token.Format.{decimal, hex, length-hex, hex-injective, AllBytes}
use better_token.Token.Jwt.{
  JwtLib, JwtConfig, new_jwt_config, jwt_config, with_secret_key, with_issuer, with_audience,
  with_algorithm, with_expiry, or_unless_blank,
}
use better_token.Token.Style.{
  Source, tiktok_charset, simple_of, generate_simple_token, timestamp_token, of_style, generate,
  generate_tiktok_token,
}

-- Texts that end in parts of one length are equal only where those parts are.
same_end : (xs ys us vs : Text) → length us ≡ length vs → xs ++ us ≡ ys ++ vs → us ≡ vs
same_end [] [] us vs l e = e
same_end [] (y ∷ ys) us vs l e = absurd (omega (arith, ap length e, length-append ys vs))
same_end (x ∷ xs) [] us vs l e = absurd (omega (arith, ap length e, length-append xs us))
same_end (x ∷ xs) (y ∷ ys) us vs l e = let p : xs ++ us ≡ ys ++ vs = cc in same_end xs ys us vs l p

abbrev front : ℕ → Text → Text
front milli user_id = decimal milli ++ (b'_' ∷ (trim_space user_id ++ (b'_' ∷ [])))

timestamp_token-front :
    (milli : ℕ) (user_id : Text) (bytes : Bytes)
    → timestamp_token milli user_id bytes ≡ front milli user_id ++ hex bytes
unfolding timestamp_token
timestamp_token-front milli user_id bytes = sym (
    append_assoc (decimal milli) (b'_' ∷ (trim_space user_id ++ (b'_' ∷ []))) (hex bytes)
    ∙ ap (λ t. decimal milli ++ (b'_' ∷ t))
        (append_assoc (trim_space user_id) (b'_' ∷ []) (hex bytes)))

-- Two timestamp tokens, of any users at any instants, are equal only where the random bytes in them are,
-- as long as both have equally many.
pub timestamp_token-injective :
    (milli milli' : ℕ) (user_id user_id' : Text) (bytes bytes' : Bytes)
    → length bytes ≡ length bytes'
    → AllBytes bytes
    → AllBytes bytes'
    → timestamp_token milli user_id bytes ≡ timestamp_token milli' user_id' bytes'
    → bytes ≡ bytes'
timestamp_token-injective milli milli' user_id user_id' bytes bytes' l b b' e =
    hex-injective bytes bytes' b b' (
      same_end (front milli user_id) (front milli' user_id') (hex bytes) (hex bytes')
        (omega (arith, length-hex bytes, length-hex bytes', l))
        (sym (timestamp_token-front milli user_id bytes)
          ∙ e
          ∙ timestamp_token-front milli' user_id' bytes'))

-- What a token of the styles `simple` and `tiktok` looks like.
abbrev pub Shaped : TokenConfig → TokenStyle → Text → Type 0
Shaped config TokenStyle.simple s =
    (length s ≡ or_length config.simple_token_length) × All IsUrlLetter s
Shaped config TokenStyle.tiktok s = (length s ≡ 11) × All (IsOf tiktok_charset) s
Shaped config style s = Unit

simple_of-ok : (r : Result Text) {s : Text} → simple_of r ≡ ok s → r ≡ ok s
simple_of-ok (err e) p = absurd (cc)
simple_of-ok (ok []) p = absurd (cc)
simple_of-ok (ok (c ∷ t)) p = p

module _ {T : Type 0} (lib : JwtLib T) (config : TokenConfig) where
  of_style-Shaped :
      (style : TokenStyle) (src : Source) (user_id : Text) (payload : T) {s : Text}
      → Reads src.entropy
      → Draws src.entropy
      → of_style lib config style src user_id payload ≡ ok s
      → Shaped config style s
  unfolding of_style generate_simple_token generate_tiktok_token
  of_style-Shaped TokenStyle.simple src user_id payload reads draws e =
      random_string-Sized src.entropy (or_length config.simple_token_length) reads
        (simple_of-ok _ e)
  of_style-Shaped TokenStyle.tiktok src user_id payload reads draws e =
      draw_letters-Drawn src.entropy tiktok_charset generate_token 11 0 draws e
  of_style-Shaped TokenStyle.jwt src user_id payload reads draws e = tt
  of_style-Shaped TokenStyle.uuid src user_id payload reads draws e = tt
  of_style-Shaped TokenStyle.timestamp src user_id payload reads draws e = tt
  of_style-Shaped TokenStyle.hash src user_id payload reads draws e = tt
  of_style-Shaped (TokenStyle.other t) src user_id payload reads draws e = tt

  -- A token of style `simple` has exactly the configured length, or 16 where that is not positive, in
  -- letters of the URL-safe alphabet of base64, and one of style `tiktok` has 11 letters of its own
  -- alphabet, where the random source reads and draws as it promises.
  pub generate-Shaped :
      (src : Source) (user_id : Text) (payload : T) {s : Text}
      → Reads src.entropy
      → Draws src.entropy
      → generate lib config src user_id payload ≡ ok s
      → Shaped config config.token_style s
  unfolding generate
  generate-Shaped src user_id payload reads draws e =
      of_style-Shaped config.token_style src user_id payload reads draws e

-- A configuration of JWTs in which nothing that has a default is left blank.
pub record IsFilled (c : JwtConfig) : Type 0 where
  pub issuer : is_nil (trim_space c.issuer) ≡ false
  pub algorithm : is_nil (trim_space c.algorithm) ≡ false
  pub expiry : is_zero_duration c.expiry ≡ false

or_unless_blank-filled :
    (s d : Text) → is_nil (trim_space d) ≡ false → is_nil (trim_space (or_unless_blank s d)) ≡ false
or_unless_blank-filled s d h = elim (Bool-cases (is_nil (trim_space s))) [
  | inl e ↦ rw e h
  | inr e ↦ rw (e, e) refl
]

-- Whatever the configuration of tokens is, the one that its JWTs are made with has an issuer and an
-- algorithm that are not blank, and an expiry that is not zero.
pub jwt_config-IsFilled :
    (config : TokenConfig) → IsFilled (new_jwt_config (some (jwt_config config) ∷ []))
unfolding new_jwt_config jwt_config with_secret_key with_issuer with_audience with_algorithm
    with_expiry Options.apply trim_space
jwt_config-IsFilled config = record {
  issuer = or_unless_blank-filled config.jwt_issuer default_issuer refl;
  algorithm = or_unless_blank-filled config.jwt_algorithm default_algorithm refl;
  expiry = ground arith;
}
