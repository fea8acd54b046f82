-- ===== src/Token/Jwt/Own.antt =====
-- token/jwt.go: what ParseToken makes of a token that the same manager has generated.
use better_token.Base.{
  ◌≡◌, ◌≢◌, inl, inr, refl, sym, ap, ◌∙◌, true, false, not, ◌&&◌, List, [], ◌∷◌, some, is_nil,
  if_pos, if_neg, arith, All, Bool-cases,
}
use better_token.Text.{Text, dec_text, trim_space}
use better_token.Time.{Time}
use better_token.Errors.{Result, ok, err, invalid_issuer}
use better_token.Token.Jwt.{
  Claims, JwtConfig, SigningMethod, signing_method, JwtLib, audience_matches,
  validate_registered_claims, claims_of, with_method, generate_token, validated, accept, read,
  parse_token,
}

module _ {T : Type 0} (lib : JwtLib T) (conf : JwtConfig) where
  -- What the libraries promise of claims that are within their time: a text that they have made by a
  -- method and a key is not blank, and by the same method and key they read the claims back as valid.
  abbrev pub Returns : Claims T → Type 0
  Returns claims =
      (method : SigningMethod) (secret token : Text)
      → lib.sign method secret claims ≡ ok token
      → (is_nil (trim_space token) ≡ false)
        × (lib.parse method secret token ≡ ok (record { claims = some claims; valid = true }))

  -- The claims of a token for the user.
  abbrev pub own_claims : Time → Text → Text → T → Claims T
  own_claims now id user_id payload = claims_of lib conf now id (trim_space user_id) payload

  abbrev secret_key : Text
  secret_key = trim_space conf.secret_key

  record IsSigned (claims : Claims T) (token : Text) : Type 0 where
    method : SigningMethod
    named : signing_method conf.algorithm ≡ ok method
    signed : lib.sign method secret_key claims ≡ ok token

  method-IsSigned :
      (claims : Claims T) (r : Result SigningMethod) {token : Text}
      → signing_method conf.algorithm ≡ r
      → with_method lib conf r (λ method. lib.sign method secret_key claims) ≡ ok token
      → IsSigned claims token
  method-IsSigned claims (err x) p e = absurd (cc)
  method-IsSigned claims (ok method) p e = record { method = method; named = p; signed = e }

  generate_token-IsSigned :
      (now : Time) (id user_id : Text) (payload : T) {token : Text}
      → generate_token lib conf now id user_id payload ≡ ok token
      → (is_nil secret_key ≡ false) × IsSigned (own_claims now id user_id payload) token
  unfolding generate_token
  generate_token-IsSigned now id user_id payload e =
      elim (Bool-cases (is_nil (trim_space user_id))) [
        | inl u ↦ absurd (let f = rw u at e in cc)
        | inr u ↦ elim (Bool-cases (is_nil secret_key)) [
          | inl s ↦ absurd (let f = rw (u, s) at e in cc)
          | inr s ↦ (
            s,
            method-IsSigned (own_claims now id user_id payload) (signing_method conf.algorithm) refl
                (let f = rw (u, s) at e in f),
          )
        ]
      ]

  -- An own token is read back, and what is left is the check of the claims.
  parse_own :
      (claims : Claims T) {token : Text}
      → Returns claims
      → is_nil secret_key ≡ false
      → IsSigned claims token
      → parse_token lib conf token
        ≡ validated lib conf claims (validate_registered_claims lib conf claims)
  unfolding parse_token read accept
  parse_own claims back s g =
      let (b, p) = back g.method secret_key _ g.signed in rw (b, s, g.named) (rw p refl)

  -- An audience that is written without spaces around it, and is not empty.
  abbrev pub IsPlain : Text → Type 0
  IsPlain a = (trim_space a ≡ a) × (is_nil a ≡ false)

  audience_self :
      (audience : List Text)
      → All IsPlain audience
      → (not (is_nil audience) && not (audience_matches audience audience)) ≡ false
  unfolding audience_matches
  audience_self [] h = refl
  audience_self (a ∷ rest) ((t, n), h) = rw (t, n, if_pos (dec_text a a) refl true false) refl

  validate_own :
      (claims : Claims T)
      → claims.issuer ≡ conf.issuer
      → claims.audience ≡ conf.audience
      → trim_space conf.issuer ≡ conf.issuer
      → All IsPlain conf.audience
      → validate_registered_claims lib conf claims ≡ ok tt
  unfolding validate_registered_claims
  validate_own claims i a t h =
      rw (a, i, t, if_pos (dec_text conf.issuer conf.issuer) refl true false)
        (ground (arith, audience_self conf.audience h))

  -- Where the issuer and the audiences are configured without spaces around them, and no audience is
  -- empty, the manager reads its own token back to the claims that it signed, as long as the libraries
  -- read what they have signed.
  pub parse_token-generate_token :
      (now : Time) (id user_id : Text) (payload : T) {token : Text}
      → Returns (own_claims now id user_id payload)
      → trim_space conf.issuer ≡ conf.issuer
      → All IsPlain conf.audience
      → generate_token lib conf now id user_id payload ≡ ok token
      → parse_token lib conf token ≡ ok (own_claims now id user_id payload)
  unfolding claims_of
  parse_token-generate_token now id user_id payload back t h e =
      let (s, g) = generate_token-IsSigned now id user_id payload e in
      let claims = own_claims now id user_id payload in
      parse_own claims back s g ∙ ap (validated lib conf claims) (validate_own claims refl refl t h)

  validate_spaced :
      (claims : Claims T)
      → claims.issuer ≡ conf.issuer
      → trim_space conf.issuer ≢ conf.issuer
      → is_nil (trim_space conf.issuer) ≡ false
      → validate_registered_claims lib conf claims ≡ err (invalid_issuer conf.issuer)
  unfolding validate_registered_claims
  validate_spaced claims i t n =
      rw (i, n, if_neg (dec_text conf.issuer (trim_space conf.issuer)) (λ e. t (sym e)) true false)
        refl

  -- Where the configured issuer is not blank and has spaces around it, the manager refuses every token of
  -- its own: it signs the issuer with the spaces and compares it without them.
  pub parse_token_refuses_own :
      (now : Time) (id user_id : Text) (payload : T) {token : Text}
      → Returns (own_claims now id user_id payload)
      → trim_space conf.issuer ≢ conf.issuer
      → is_nil (trim_space conf.issuer) ≡ false
      → generate_token lib conf now id user_id payload ≡ ok token
      → parse_token lib conf token ≡ err (invalid_issuer conf.issuer)
  unfolding claims_of
  parse_token_refuses_own now id user_id payload back t n e =
      let (s, g) = generate_token-IsSigned now id user_id payload e in
      let claims = own_claims now id user_id payload in
      parse_own claims back s g ∙ ap (validated lib conf claims) (validate_spaced claims refl t n)
