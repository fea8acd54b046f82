-- ===== src/Rand/Lengths.antt =====
-- pkg/rand/rand.go: how long the random texts are, and of what letters.
use mathlib.Core.Path.{subst}
use better_token.Base.{
  ◌⊎◌, inl, inr, Bool-cases, ap, ℕ, zero, suc, ◌+◌, ◌*◌, ◌/◌, ◌%◌, ◌≤◌, ◌<◌, ◌≡◌, refl, Bool, true,
  ◌&&◌, ◌||◌, [], ◌∷◌, leb, ltb, ◌==◌, length, take, length-take, All, All-take, arith,
  if◌then◌else◌,
}
use better_token.Text.{Text, Bytes}
use better_token.Errors.{Error, Result, ok, err}
use better_token.Rand.{
  Entropy, sextet, encode, trim_padding, byte_len, cut, random_string, letter, put_letter,
  draw_letters,
}

-- What crypto/rand promises of a read: as many bytes as asked for, each below 256.
abbrev pub IsByte : ℕ → Type 0
IsByte b = b < 256

abbrev pub Reads : Entropy → Type 0
Reads e = (n : ℕ) (bytes : Bytes) → e.read n ≡ ok bytes → (length bytes ≡ n) × All IsByte bytes

-- A letter of the URL-safe alphabet of base64.
abbrev pub is_url_letter : ℕ → Bool
is_url_letter c =
    (leb b'A' c && leb c b'Z')
    || (leb b'a' c && leb c b'z')
    || (leb b'0' c && leb c b'9')
    || c == b'-'
    || c == b'_'

abbrev pub IsUrlLetter : ℕ → Type 0
IsUrlLetter c = is_url_letter c ≡ true

sextet-IsUrlLetter : (n : ℕ) → n < 64 → IsUrlLetter (sextet n)
sextet-IsUrlLetter n h = ground arith

trim_padding-letter : (c : ℕ) (s : Text) → IsUrlLetter c → trim_padding (c ∷ s) ≡ c ∷ trim_padding s
unfolding trim_padding
trim_padding-letter c s h = ground arith

trim_padding-pads :
    (trim_padding [] ≡ [])
    × (trim_padding (b'=' ∷ []) ≡ [])
    × (trim_padding (b'=' ∷ b'=' ∷ []) ≡ [])
unfolding trim_padding
trim_padding-pads = (refl, refl, refl)

-- What the texts are made of: letters of the alphabet, and at least as many as there were bytes.
abbrev Fits : Bytes → Text → Type 0
Fits bytes s = (length bytes ≤ length s) × All IsUrlLetter s

trim_encode-Fits : (bytes : Bytes) → All IsByte bytes → Fits bytes (trim_padding (encode bytes))
unfolding encode
trim_encode-Fits [] h = rw trim_padding-pads.0 (omega arith, tt)
trim_encode-Fits (a ∷ []) (ha, _) =
    let p = sextet-IsUrlLetter (a / 4) (omega arith) in
    let q = sextet-IsUrlLetter (a % 4 * 16) (omega arith) in
    rw (trim_padding-letter _ _ p, trim_padding-letter _ _ q, trim_padding-pads.2)
      (omega arith, (p, (q, tt)))
trim_encode-Fits (a ∷ b ∷ []) (ha, (hb, _)) =
    let p = sextet-IsUrlLetter (a / 4) (omega arith) in
    let q = sextet-IsUrlLetter (a % 4 * 16 + b / 16) (omega arith) in
    let r = sextet-IsUrlLetter (b % 16 * 4) (omega arith) in
    rw
      (
        trim_padding-letter _ _ p,
        trim_padding-letter _ _ q,
        trim_padding-letter _ _ r,
        trim_padding-pads.1,
      )
      (omega arith, (p, (q, (r, tt))))
trim_encode-Fits (a ∷ b ∷ c ∷ rest) (ha, (hb, (hc, h))) =
    let p = sextet-IsUrlLetter (a / 4) (omega arith) in
    let q = sextet-IsUrlLetter (a % 4 * 16 + b / 16) (omega arith) in
    let r = sextet-IsUrlLetter (b % 16 * 4 + c / 64) (omega arith) in
    let t = sextet-IsUrlLetter (c % 64) (omega arith) in
    let (longer, all) = trim_encode-Fits rest h in
    rw
      (
        trim_padding-letter _ _ p,
        trim_padding-letter _ _ q,
        trim_padding-letter _ _ r,
        trim_padding-letter _ _ t,
      )
      (omega arith, (p, (q, (r, (t, all)))))

abbrev clip : ℕ → Text → Text
clip n s = if ltb n (length s) then take n s else s

clip-Fits :
    (n : ℕ) (s : Text)
    → n ≤ length s
    → All IsUrlLetter s
    → (length (clip n s) ≡ n) × All IsUrlLetter (clip n s)
clip-Fits n s h a = elim (Bool-cases (ltb n (length s))) [
  | inl t ↦ rw t (omega (arith, length-take n s), All-take IsUrlLetter n s a)
  | inr t ↦ rw t (ground arith, a)
]

abbrev Sized : ℕ → Text → Type 0
Sized n s = (length s ≡ n) × All IsUrlLetter s

cut-Sized :
    (n : ℕ) (r : Result Bytes) {s : Text}
    → ((bytes : Bytes) → r ≡ ok bytes → (n ≤ length bytes) × All IsByte bytes)
    → cut n r ≡ ok s
    → Sized n s
unfolding cut
cut-Sized n (err e) h p = absurd (cc)
cut-Sized n (ok bytes) {s} h p =
    let (long, small) = h bytes refl in
    let (longer, all) = trim_encode-Fits bytes small in
    let e : clip n (trim_padding (encode bytes)) ≡ s = cc in
    subst (λ (t : Text). Sized n t) e (clip-Fits n (trim_padding (encode bytes)) (omega arith) all)

byte_len-ge : (n : ℕ) → n ≤ byte_len n
unfolding byte_len
byte_len-ge n = ground arith

-- With a source that reads as many bytes as it is asked for, a random text has exactly the length asked
-- for, and each letter of it is one of the URL-safe alphabet of base64, so that no padding is left in it.
pub random_string-Sized :
    (e : Entropy) (n : ℕ) {s : Text}
    → Reads e
    → random_string e n ≡ ok s
    → (length s ≡ n) × All IsUrlLetter s
unfolding random_string
random_string-Sized e zero {s} reads h =
    let p : [] ≡ s = cc in subst (λ (t : Text). Sized 0 t) p (refl, tt)
random_string-Sized e (suc n) reads h =
    cut-Sized (suc n) (e.read (byte_len (suc n)))
      (λ bytes p.
        let (l, b) = reads (byte_len (suc n)) bytes p in (omega (arith, byte_len-ge (suc n)), b))
      h

-- Each draw is below its bound, as rand.Int promises.
abbrev pub Draws : Entropy → Type 0
Draws e = (i max k : ℕ) → e.draw i max ≡ ok k → k < max

-- A letter of the set.
abbrev pub IsOf : Text → ℕ → Type 0
IsOf [] c = ⊥
IsOf (d ∷ set) c = (c ≡ d) ⊎ IsOf set c

letter-IsOf : (set : Text) (k : ℕ) → k < length set → IsOf set (letter set k)
letter-IsOf [] k h = absurd (omega arith)
letter-IsOf (c ∷ set) zero h = inl refl
letter-IsOf (c ∷ set) (suc k) h = inr (letter-IsOf set k (omega arith))

abbrev Drawn : Text → ℕ → Text → Type 0
Drawn set n s = (length s ≡ n) × All (IsOf set) s

put_letter-Drawn :
    (set : Text) (c n : ℕ) (r : Result Text) {s : Text}
    → IsOf set c
    → ((t : Text) → r ≡ ok t → Drawn set n t)
    → put_letter c r ≡ ok s
    → Drawn set (suc n) s
put_letter-Drawn set c n (err e) h k p = absurd (cc)
put_letter-Drawn set c n (ok t) {s} h k p =
    let (l, a) = k t refl in
    let q : c ∷ t ≡ s = cc in subst (λ (u : Text). Drawn set (suc n) u) q (ap suc l, (h, a))

-- The letters drawn for a text are as many as the rounds, and each is one of the set, where each draw is
-- below its bound: RandomNumericString, RandomAlphanumeric and the tokens of style tiktok.
pub draw_letters-Drawn :
    (e : Entropy) (set : Text) (wrap : Error → Error) (n i : ℕ) {s : Text}
    → Draws e
    → draw_letters e set wrap n i ≡ ok s
    → (length s ≡ n) × All (IsOf set) s
unfolding draw_letters
draw_letters-Drawn e set wrap zero i {s} d h =
    let p : [] ≡ s = cc in subst (λ (t : Text). Drawn set 0 t) p (refl, tt)
draw_letters-Drawn e set wrap (suc n) i {s} d h =
    go (e.draw i (length set)) refl (λ t. draw_letters-Drawn e set wrap n (i + 1) d) h
  where
    go :
        (r : Result ℕ)
        → e.draw i (length set) ≡ r
        → ((t : Text) → draw_letters e set wrap n (i + 1) ≡ ok t → Drawn set n t)
        → (elim r [
          | err x ↦ err (wrap x)
          | ok k ↦ put_letter (letter set k) (draw_letters e set wrap n (i + 1))
        ])
          ≡ ok s
        → Drawn set (suc n) s
    go (err x) q ih p = absurd (cc)
    go (ok k) q ih p =
        put_letter-Drawn set (letter set k) n (draw_letters e set wrap n (i + 1))
          (letter-IsOf set k (d i (length set) k q)) ih p
