-- ===== src/Rand.antt =====
-- pkg/rand/rand.go: random texts. Package crypto/rand is a parameter: what a read of n bytes gives, and
-- what the i-th draw of a number below a bound gives.
pub mod Lengths
use better_token.Base.{
  ℕ, zero, suc, ◌+◌, ◌-◌, ◌*◌, ◌/◌, ◌%◌, Bool, ◌&&◌, List, [], ◌∷◌, is_nil, leb, ltb, ◌==◌, length,
  take, Option, none, some, if◌then◌else◌,
}
use better_token.Text.{Text, Bytes, text}
use better_token.Errors.{Error, Result, ok, err, read_entropy}

pub record Entropy : Type 0 where
  pub read : ℕ → Result Bytes
  pub draw : ℕ → ℕ → Result ℕ

-- The alphabet of base64.URLEncoding
abbrev sextet : ℕ → ℕ
sextet n =
    if ltb n 26
    then b'A' + n
    else if ltb n 52
    then b'a' + (n - 26)
    else if ltb n 62
    then b'0' + (n - 52)
    else if n == 62
    then b'-'
    else b'_'

-- base64.URLEncoding.EncodeToString
unfoldable pub encode : Bytes → Text
encode [] = []
encode (a ∷ []) = sextet (a / 4) ∷ sextet (a % 4 * 16) ∷ b'=' ∷ b'=' ∷ []
encode (a ∷ b ∷ []) =
    sextet (a / 4) ∷ sextet (a % 4 * 16 + b / 16) ∷ sextet (b % 16 * 4) ∷ b'=' ∷ []
encode (a ∷ b ∷ c ∷ rest) =
    sextet (a / 4)
    ∷ sextet (a % 4 * 16 + b / 16)
    ∷ sextet (b % 16 * 4 + c / 64)
    ∷ sextet (c % 64)
    ∷ encode rest

-- strings.TrimRight(s, "=")
unfoldable pub trim_padding : Text → Text
trim_padding [] = []
trim_padding (c ∷ s) =
    let rest = trim_padding s in if is_nil rest && c == b'=' then [] else c ∷ rest

-- RandomString: a length that is not positive is 0 here.
unfoldable pub byte_len : ℕ → ℕ
byte_len n = let bytes = n * 3 / 4 in if ltb bytes n then n else bytes

unfoldable pub cut : ℕ → Result Bytes → Result Text
unfolding encode trim_padding
cut n (err e) = err (read_entropy e)
cut n (ok bytes) =
    let encoded = trim_padding (encode bytes) in
    ok (if ltb n (length encoded) then take n encoded else encoded)

unfoldable pub random_string : Entropy → ℕ → Result Text
unfolding byte_len cut
random_string e zero = ok []
random_string e (suc n) = cut (suc n) (e.read (byte_len (suc n)))

-- A letter of a set by its index; past the end Go would panic, and 0 stands for that.
abbrev pub letter : Text → ℕ → ℕ
letter [] i = 0
letter (c ∷ set) zero = c
letter (c ∷ set) (suc i) = letter set i

-- The loop of RandomNumericString and RandomAlphanumeric: `left` rounds from the i-th on.
abbrev put_letter : ℕ → Result Text → Result Text
put_letter c (ok rest) = ok (c ∷ rest)
put_letter c (err e) = err e

unfoldable pub draw_letters : Entropy → Text → (Error → Error) → ℕ → ℕ → Result Text
draw_letters e set wrap zero i = ok []
draw_letters e set wrap (suc left) i = elim (e.draw i (length set)) [
  | err x ↦ err (wrap x)
  | ok k ↦ put_letter (letter set k) (draw_letters e set wrap left (i + 1))
]

abbrev pub digits : Text
digits = text "0123456789"

abbrev pub alphanumerics : Text
alphanumerics = text "ABCDEFGHIJKLMNOPQRSTUVWXYZabcdefghijklmnopqrstuvwxyz0123456789"

unfoldable pub random_numeric_string : Entropy → ℕ → Result Text
unfolding draw_letters
random_numeric_string e n = draw_letters e digits read_entropy n 0

unfoldable pub random_alphanumeric : Entropy → ℕ → Result Text
unfolding draw_letters
random_alphanumeric e n = draw_letters e alphanumerics read_entropy n 0
