-- ===== src/Token/Format.antt =====
-- Package fmt's `%d` and package encoding/hex, as token/generator.go uses them.
use better_token.Base.{
  ℕ, zero, suc, ◌+◌, ◌-◌, ◌*◌, ◌/◌, ◌%◌, ◌≤◌, ◌<◌, ◌≡◌, refl, true, false, [], ◌∷◌, ◌++◌, ltb,
  length, All, arith, Bool-cases, inl, inr, if◌then◌else◌,
}
use better_token.Text.{Text, Bytes}

-- The decimal digits of n, with fuel: n + 1 is enough, as `decimal_value` shows.
abbrev digit : ℕ → ℕ
digit n = b'0' + n

unfoldable pub decimal_from : ℕ → ℕ → Text
decimal_from zero n = []
decimal_from (suc fuel) n = elim (ltb n 10) [
  | true ↦ digit n ∷ []
  | false ↦ decimal_from fuel (n / 10) ++ (digit (n % 10) ∷ [])
]

unfoldable pub decimal : ℕ → Text
unfolding decimal_from
decimal n = decimal_from (suc n) n

abbrev value_from : ℕ → Text → ℕ
value_from acc [] = acc
value_from acc (c ∷ s) = value_from (acc * 10 + (c - b'0')) s

value_from-append :
    (acc c : ℕ) (s : Text) → value_from acc (s ++ (c ∷ [])) ≡ value_from acc s * 10 + (c - b'0')
value_from-append acc c [] = refl
value_from-append acc c (d ∷ s) = value_from-append (acc * 10 + (d - b'0')) c s

decimal_from_value : (fuel n : ℕ) → n < fuel → value_from 0 (decimal_from fuel n) ≡ n
unfolding decimal_from
decimal_from_value zero n h = absurd (omega arith)
decimal_from_value (suc fuel) n h = elim (Bool-cases (ltb n 10)) [
  | inl t ↦ rw (t, decimal_from) (omega arith)
  | inr t ↦
      let big : 10 ≤ n = ground arith in
      rw (t, decimal_from, value_from-append)
        (omega (arith, decimal_from_value fuel (n / 10) (omega arith)))
]

-- The digits stand for the number.
pub decimal_value : (n : ℕ) → value_from 0 (decimal n) ≡ n
unfolding decimal
decimal_value n = decimal_from_value (suc n) n (omega arith)

-- hex.EncodeToString
abbrev hex_digit : ℕ → ℕ
hex_digit n = if ltb n 10 then b'0' + n else b'a' + (n - 10)

unfoldable pub hex : Bytes → Text
hex [] = []
hex (b ∷ bytes) = hex_digit (b / 16) ∷ hex_digit (b % 16) ∷ hex bytes

pub length-hex : (bytes : Bytes) → length (hex bytes) ≡ 2 * length bytes
unfolding hex
length-hex [] = omega arith
length-hex (b ∷ bytes) = omega (arith, length-hex bytes)

hex_digit-injective : (m n : ℕ) → m < 16 → n < 16 → hex_digit m ≡ hex_digit n → m ≡ n
hex_digit-injective m n hm hn e = ground arith

byte_of_digits : (a b : ℕ) → a < 256 → b < 256 → a / 16 ≡ b / 16 → a % 16 ≡ b % 16 → a ≡ b
byte_of_digits a b ha hb p q = omega arith

abbrev pub AllBytes : Bytes → Type 0
AllBytes = All (λ b. b < 256)

pub hex-injective : (bs cs : Bytes) → AllBytes bs → AllBytes cs → hex bs ≡ hex cs → bs ≡ cs
unfolding hex
hex-injective [] [] hb hc e = refl
hex-injective [] (c ∷ cs) hb hc e = absurd (cc)
hex-injective (b ∷ bs) [] hb hc e = absurd (cc)
hex-injective (b ∷ bs) (c ∷ cs) (hb, hbs) (hc, hcs) e =
    let p : hex_digit (b / 16) ≡ hex_digit (c / 16) = cc in
    let q : hex_digit (b % 16) ≡ hex_digit (c % 16) = cc in
    let r : hex bs ≡ hex cs = cc in
    let ih = hex-injective bs cs hbs hcs r in
    let head : b ≡ c =
      byte_of_digits b c hb hc (hex_digit-injective (b / 16) (c / 16) (omega arith) (omega arith) p)
        (hex_digit-injective (b % 16) (c % 16) (omega arith) (omega arith) q) in
    cc
