-- ===== src/Tests/Token.antt =====
-- The theorems on random texts and on the generation of tokens, at concrete inputs.
use mathlib.Core.Path.{subst}
use better_token.Base.{
  ℕ, zero, suc, ◌≡◌, refl, ap, true, false, some, [], ◌∷◌, length, All, arith, is_nil,
}
use better_token.Text.{Text, Bytes, text, dec_text, trim_space}
use better_token.Time.{nanoseconds, add_duration}
use better_token.Errors.{Result, ok, err, empty_random, invalid_issuer}
use better_token.Rand.{
  Entropy, random_string, draw_letters, digits, encode, trim_padding, byte_len, cut,
}
use better_token.Rand.Lengths.{
  IsByte, Reads, Draws, IsUrlLetter, IsOf, random_string-Sized, draw_letters-Drawn,
}
use better_token.Token.{TokenConfig, TokenStyle, default_token_config}
use better_token.Token.Jwt.{
  Claims, JwtConfig, JwtLib, claims_of, generate_token, parse_token, signing_method,
}
use better_token.Token.Jwt.Laws.{IsAccepted, parse_token-IsAccepted}
use better_token.Token.Jwt.Own.{Returns, parse_token-generate_token, parse_token_refuses_own}
use better_token.Token.Style.{Source, timestamp_token, generate}
use better_token.Token.Style.Laws.{Shaped, generate-Shaped, timestamp_token-injective}

abbrev bytes_of : ℕ → Bytes
bytes_of zero = []
bytes_of (suc n) = 200 ∷ bytes_of n

abbrev last_of : ℕ → Result ℕ
last_of zero = err empty_random
last_of (suc n) = ok n

-- A source that reads the byte 200 and draws the last letter of each set.
abbrev entropy : Entropy
entropy = record { read = λ n. ok (bytes_of n); draw = λ i max. last_of max }

bytes_of-read : (n : ℕ) → (length (bytes_of n) ≡ n) × All IsByte (bytes_of n)
bytes_of-read zero = (refl, tt)
bytes_of-read (suc n) = let (l, a) = bytes_of-read n in (ap suc l, (omega arith, a))

entropy-Reads : Reads entropy
entropy-Reads n bytes e =
    let p : bytes_of n ≡ bytes = cc in
    subst (λ (b : Bytes). (length b ≡ n) × All IsByte b) p (bytes_of-read n)

entropy-Draws : Draws entropy
entropy-Draws i zero k e = absurd (cc)
entropy-Draws i (suc n) k e = let p : n ≡ k = cc in omega (arith, p)

random_string-Sized_example : (length (text "yMjIy") ≡ 5) × All IsUrlLetter (text "yMjIy")
unfolding random_string byte_len cut encode trim_padding
random_string-Sized_example = random_string-Sized entropy 5 entropy-Reads refl

draw_letters-Drawn_example : (length (text "999") ≡ 3) × All (IsOf digits) (text "999")
unfolding draw_letters
draw_letters-Drawn_example = draw_letters-Drawn entropy digits (λ e. e) 3 0 entropy-Draws refl

abbrev config : JwtConfig
config = record {
  secret_key = text "key";
  issuer = text "app";
  audience = text "web" ∷ [];
  algorithm = text "HS256";
  expiry = nanoseconds 60;
}

abbrev spaced : JwtConfig
spaced = record config { issuer = text "app " }

abbrev own : JwtConfig → Claims ℕ
own c = record {
  payload = 7;
  expires_at = 160;
  issued_at = 100;
  not_before = 100;
  issuer = c.issuer;
  audience = c.audience;
  subject = text "u";
  id = text "id";
}

abbrev signed : Text
signed = text "a.b.c"

-- A library that signs every token as `a.b.c` and reads the claims of one user from it.
abbrev lib : JwtConfig → JwtLib ℕ
lib c = record {
  sign = λ method secret claims. ok signed;
  parse = λ method secret token. ok (record { claims = some (own c); valid = true });
  numeric_date = λ t. t;
}

lib-Returns : (c : JwtConfig) → Returns (lib c) c (own c)
unfolding trim_space
lib-Returns c method secret token e =
    let p : signed ≡ token = cc in
    (subst (λ (t : Text). is_nil (trim_space t) ≡ false) p refl, refl)

parse_token-IsAccepted_example : IsAccepted (lib config) config signed (own config)
unfolding parse_token signing_method trim_space dec_text
parse_token-IsAccepted_example = parse_token-IsAccepted (lib config) config signed refl

parse_token-generate_token_example : parse_token (lib config) config signed ≡ ok (own config)
unfolding parse_token generate_token signing_method claims_of trim_space dec_text add_duration
parse_token-generate_token_example =
    parse_token-generate_token (lib config) config 100 (text "id") (text " u") 7
      (lib-Returns config) refl ((refl, refl), tt) refl

parse_token_refuses_own_example :
    parse_token (lib spaced) spaced signed ≡ err (invalid_issuer (text "app "))
unfolding parse_token generate_token signing_method claims_of trim_space dec_text add_duration
parse_token_refuses_own_example =
    parse_token_refuses_own (lib spaced) spaced 100 (text "id") (text "u") 7 (lib-Returns spaced)
      (λ e. absurd (cc)) refl refl

abbrev two_bytes : Bytes
two_bytes = 1 ∷ 255 ∷ []

timestamp_token-injective_example : two_bytes ≡ two_bytes
unfolding timestamp_token trim_space
timestamp_token-injective_example =
    timestamp_token-injective 5 5 (text "u") (text "u ") two_bytes two_bytes refl
      (omega arith, (omega arith, tt)) (omega arith, (omega arith, tt)) refl

abbrev source : Source
source = record {
  entropy = entropy;
  now = 100;
  unix_milli = 5;
  unix_nano = 5000000;
  uuid = text "id";
  sha256_hex = λ t. t;
}

abbrev tiktok_config : TokenConfig
tiktok_config = record default_token_config { token_style = TokenStyle.tiktok }

generate-Shaped_example : Shaped tiktok_config TokenStyle.tiktok (text "zzzzzzzzzzz")
unfolding generate
generate-Shaped_example =
    generate-Shaped (lib config) tiktok_config source (text "u") 7 entropy-Reads entropy-Draws refl
