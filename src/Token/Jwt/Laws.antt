-- ===== src/Token/Jwt/Laws.antt =====
-- token/jwt.go: what a text that `ParseToken` accepts has, and what becomes of a manager's own tokens.
use better_token.Base.{
  ◌≡◌, ◌⊎◌, inl, inr, refl, sym, ap, ◌∙◌, Bool, true, false, List, [], ◌∷◌, Option, none, some,
  is_nil, arith, Bool-cases,
}
use better_token.Text.{Text, trim_space}
use better_token.Errors.{Result, ok, err}
use better_token.Token.Jwt.{
  Claims, JwtConfig, SigningMethod, signing_method, Parsed, JwtLib, same, is_among,
  audience_matches, validate_registered_claims, with_method, validated, accept, read, parse_token,
}

-- An audience that is not blank and that the claims have.
abbrev pub Matched : List Text → List Text → Type 0
Matched actual [] = ⊥
Matched actual (expected ∷ rest) =
    ((is_nil (trim_space expected) ≡ false) × (is_among (trim_space expected) actual ≡ true))
    ⊎ Matched actual rest

audience_matches-Matched :
    (actual expected : List Text)
    → audience_matches actual expected ≡ true
    → Matched actual expected
unfolding audience_matches
audience_matches-Matched actual [] e = absurd (cc)
audience_matches-Matched actual (want ∷ rest) e = elim (Bool-cases (is_nil (trim_space want))) [
  | inl n ↦ inr (audience_matches-Matched actual rest (let f = rw n at e in f))
  | inr n ↦ elim (Bool-cases (is_among (trim_space want) actual)) [
    | inl a ↦ inl (n, a)
    | inr a ↦ inr (audience_matches-Matched actual rest (let f = rw (n, a) at e in f))
  ]
]

module _ {T : Type 0} (lib : JwtLib T) (conf : JwtConfig) where
  -- What the checks of ParseToken establish.
  pub record IsAccepted (token : Text) (claims : Claims T) : Type 0 where
    pub method : SigningMethod
    pub named : signing_method conf.algorithm ≡ ok method
    pub signed :
        lib.parse method (trim_space conf.secret_key) token
        ≡ ok (record { claims = some claims; valid = true })
    pub secret : is_nil (trim_space conf.secret_key) ≡ false
    pub issuer : (is_nil (trim_space conf.issuer) ≡ true) ⊎ (claims.issuer ≡ trim_space conf.issuer)
    pub audience : (conf.audience ≡ []) ⊎ Matched claims.audience conf.audience

  same→path : (a b : Text) → same a b ≡ true → a ≡ b
  same→path a b e = ground arith

  nil→path : (l : List Text) → is_nil l ≡ true → l ≡ []
  nil→path [] e = refl
  nil→path (x ∷ l) e = absurd (cc)

  abbrev Checked : Claims T → Type 0
  Checked claims =
      ((is_nil (trim_space conf.issuer) ≡ true) ⊎ (claims.issuer ≡ trim_space conf.issuer))
      × ((conf.audience ≡ []) ⊎ Matched claims.audience conf.audience)

  issuer_checked :
      (claims : Claims T)
      → validate_registered_claims lib conf claims ≡ ok tt
      → (is_nil (trim_space conf.issuer) ≡ true) ⊎ (claims.issuer ≡ trim_space conf.issuer)
  unfolding validate_registered_claims
  issuer_checked claims e = ground arith

  audience_checked :
      (claims : Claims T)
      → validate_registered_claims lib conf claims ≡ ok tt
      → (is_nil conf.audience ≡ true) ⊎ (audience_matches claims.audience conf.audience ≡ true)
  unfolding validate_registered_claims
  audience_checked claims e = ground arith

  accept-Checked :
      (found : Option (Claims T)) (valid : Bool) {claims : Claims T}
      → accept lib conf found valid ≡ ok claims
      → (found ≡ some claims)
        × (valid ≡ true)
        × (validate_registered_claims lib conf claims ≡ ok tt)
  unfolding accept
  accept-Checked none valid e = absurd (cc)
  accept-Checked (some found) false e = absurd (cc)
  accept-Checked (some found) true {claims} e =
      go (validate_registered_claims lib conf found) refl e
    where
      go :
          (r : Result (Unit {0}))
          → validate_registered_claims lib conf found ≡ r
          → validated lib conf found r ≡ ok claims
          → (some found ≡ some claims)
            × (true ≡ true)
            × (validate_registered_claims lib conf claims ≡ ok tt)
      go (ok u) p q =
          let same : found ≡ claims = cc in
          (ap some same, refl, ap (validate_registered_claims lib conf) (sym same) ∙ p)
      go (err x) p q = absurd (cc)

  read-Checked :
      (r : Result (Parsed T)) {claims : Claims T}
      → read lib conf r ≡ ok claims
      → (r ≡ ok (record { claims = some claims; valid = true }))
        × (validate_registered_claims lib conf claims ≡ ok tt)
  unfolding read
  read-Checked (err x) e = absurd (cc)
  read-Checked (ok parsed) e =
      let (p, q, v) = accept-Checked parsed.claims parsed.valid e in
      (ap ok (λ i. record { claims = p i; valid = q i }), v)

  audience-Matched :
      (claims : Claims T)
      → validate_registered_claims lib conf claims ≡ ok tt
      → (conf.audience ≡ []) ⊎ Matched claims.audience conf.audience
  audience-Matched claims e = elim (audience_checked claims e) [
    | inl n ↦ inl (nil→path conf.audience n)
    | inr a ↦ inr (audience_matches-Matched claims.audience conf.audience a)
  ]

  method-IsAccepted :
      (token : Text) (r : Result SigningMethod) {claims : Claims T}
      → signing_method conf.algorithm ≡ r
      → is_nil (trim_space conf.secret_key) ≡ false
      → with_method lib conf r
          (λ method. read lib conf (lib.parse method (trim_space conf.secret_key) token))
        ≡ ok claims
      → IsAccepted token claims
  method-IsAccepted token (err x) p s e = absurd (cc)
  method-IsAccepted token (ok method) {claims} p s e =
      let (signed, v) = read-Checked (lib.parse method (trim_space conf.secret_key) token) e in
      record {
        method = method;
        named = p;
        signed = signed;
        secret = s;
        issuer = issuer_checked claims v;
        audience = audience-Matched claims v;
      }

  -- A text is accepted only where the library has read valid claims from it by the configured method and
  -- a key that is not blank, where the configured issuer is blank or, without the spaces around it, the
  -- claims' own, and where no audience is configured or one that is not blank, without the spaces around
  -- it, is among the claims' audiences.
  pub parse_token-IsAccepted :
      (token : Text) {claims : Claims T}
      → parse_token lib conf token ≡ ok claims
      → IsAccepted token claims
  unfolding parse_token
  parse_token-IsAccepted token e = elim (Bool-cases (is_nil (trim_space token))) [
    | inl b ↦ absurd (let f = rw b at e in cc)
    | inr b ↦ elim (Bool-cases (is_nil (trim_space conf.secret_key))) [
      | inl s ↦ absurd (let f = rw (b, s) at e in cc)
      | inr s ↦
          method-IsAccepted token (signing_method conf.algorithm) refl s
            (let f = rw (b, s) at e in f)
    ]
  ]
