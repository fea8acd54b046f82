-- ===== src/Plugins/Http/Cookie/Laws.antt =====
-- plugins/http/cookie.go: what a cookie that is written has, and how long it lives.
use better_token.Base.{
  ℕ, zero, suc, ◌+◌, ◌-◌, ◌*◌, ◌/◌, ◌^◌, ◌≡◌, ◌≤◌, ◌<◌, ◌⊎◌, inl, inr, refl, Bool, true, false, not,
  ◌&&◌, ◌||◌, some, is_nil, ltb, if◌then◌else◌, arith, Bool-cases,
}
use better_token.Text.{Text, text, trim_space, has_prefix}
use better_token.Time.{Time, Duration, nanoseconds, negative, add_duration}
use better_token.Errors.{Result, ok, err, invalid_cookie}
use better_token.Plugins.Http.Cookie.{
  CookieConfig, Cookie, MaxAge, session, seconds, settled, plain_cookie, is_known, is_none_mode,
  is_root, cookie, second, with_lifetime, and_set, set_token_cookie,
}

-- What the browsers ask of a cookie by its SameSite and its name.
pub record IsSafe (c : CookieConfig) : Type 0 where
  pub rooted : has_prefix c.path (text "/") ≡ true
  pub known : is_known c.same_site ≡ true
  pub cross_site : (is_none_mode c.same_site ≡ false) ⊎ (c.secure ≡ true)
  pub secure_name : (has_prefix c.name (text "__Secure-") ≡ false) ⊎ (c.secure ≡ true)
  pub host_name :
      (has_prefix c.name (text "__Host-") ≡ false)
      ⊎ ((c.secure ≡ true) × (is_nil c.domain ≡ true) × (is_root c.path ≡ true))

passed :
    {A : Type 0} (b : Bool) {x : Result A} {c : A}
    → (if b then err invalid_cookie else x) ≡ ok c
    → (b ≡ false) × (x ≡ ok c)
passed true e = absurd (cc)
passed false e = (refl, e)

true_of_not : (b : Bool) → not b ≡ false → b ≡ true
true_of_not true e = refl
true_of_not false e = absurd (cc)

unless_secure : (b secure : Bool) → (b && not secure) ≡ false → (b ≡ false) ⊎ (secure ≡ true)
unless_secure false secure e = inl refl
unless_secure true true e = inr refl
unless_secure true false e = absurd (cc)

host_only :
    (b secure bare root : Bool)
    → (b && (not secure || not bare || not root)) ≡ false
    → (b ≡ false) ⊎ ((secure ≡ true) × (bare ≡ true) × (root ≡ true))
host_only false secure bare root e = inl refl
host_only true true true true e = inr (refl, refl, refl)
host_only true true true false e = absurd (cc)
host_only true true false root e = absurd (cc)
host_only true false bare root e = absurd (cc)

-- How long a cookie lives: for as many seconds as the lifetime has, the last of them begun, and that
-- within an int of the platform; or for the browser's session.
abbrev pub Lives : ℕ → Duration → MaxAge → Type 0
Lives word (nanoseconds zero) age = age ≡ session
Lives word (negative n) age = age ≡ session
Lives word (nanoseconds (suc n)) age =
    (s : ℕ) × (age ≡ seconds s)
    × (suc n ≤ s * second)
    × (s * second < suc n + second)
    × (s < 2 ^ (word - 1))

with_lifetime-Lives :
    (word : ℕ) (now : Time) (ttl : Duration) (c d : Cookie)
    → c.max_age ≡ session
    → with_lifetime word now ttl c ≡ ok d
    → Lives word ttl d.max_age × (d.config ≡ c.config) × (d.value ≡ c.value)
with_lifetime-Lives word now (nanoseconds zero) c d m e =
    let p : c ≡ d = cc in rw (← p) (m, refl, refl)
with_lifetime-Lives word now (negative n) c d m e = let p : c ≡ d = cc in rw (← p) (m, refl, refl)
with_lifetime-Lives word now (nanoseconds (suc n)) c d m e =
    elim (Bool-cases (ltb (n / second + 1) (2 ^ (word - 1)))) [
      | inr l ↦ absurd (let f = rw l at e in cc)
      | inl l ↦
          let f = rw l at e in
          let p : record c {
            max_age = seconds (n / second + 1);
            expires = some (add_duration now (nanoseconds (suc n)));
          }
              ≡ d =
            cc in
          rw (← p) ((n / second + 1, refl, omega arith, omega arith, ground arith), refl, refl)
    ]

module _ (valid : Cookie → Bool) where
  cookie-IsSafe :
      (config : CookieConfig) (value : Text) {c : Cookie}
      → cookie valid config value ≡ ok c
      → IsSafe (settled config)
        × (plain_cookie (settled config) value ≡ c)
        × (valid (plain_cookie (settled config) value) ≡ true)
  unfolding cookie
  cookie-IsSafe config value {c} e =
      let s = settled config in
      let (a, e1) = passed (not (has_prefix s.path (text "/"))) e in
      let (b, e2) = passed (not (is_known s.same_site)) e1 in
      let (x, e3) = passed (is_none_mode s.same_site && not s.secure) e2 in
      let (y, e4) = passed (has_prefix s.name (text "__Secure-") && not s.secure) e3 in
      let (z, e5) =
        passed
          (has_prefix s.name (text "__Host-")
            && (not s.secure || not (is_nil s.domain) || not (is_root s.path)))
          e4 in
      let (v, e6) = passed (not (valid (plain_cookie s value))) e5 in
      let made : plain_cookie s value ≡ c = cc in
      (
        record {
          rooted = true_of_not (has_prefix s.path (text "/")) a;
          known = true_of_not (is_known s.same_site) b;
          cross_site = unless_secure (is_none_mode s.same_site) s.secure x;
          secure_name = unless_secure (has_prefix s.name (text "__Secure-")) s.secure y;
          host_name =
              host_only (has_prefix s.name (text "__Host-")) s.secure (is_nil s.domain)
                (is_root s.path) z;
        },
        made,
        true_of_not (valid (plain_cookie s value)) v,
      )

  -- A cookie that SetTokenCookie writes holds the token without the spaces around it, which is not empty;
  -- it keeps the rules of browsers on SameSite=None and on the names __Secure- and __Host-; and it lives
  -- for the lifetime rounded up to whole seconds, which fit in an int of the platform, or for the session
  -- where the lifetime is not positive.
  pub set_token_cookie-IsSafe :
      (config : CookieConfig) (has_writer : Bool) (word : ℕ) (now : Time) (token : Text)
      (ttl : Duration) {c : Cookie}
      → set_token_cookie valid config has_writer word now token ttl ≡ ok c
      → IsSafe c.config
        × (c.value ≡ trim_space token)
        × (is_nil c.value ≡ false)
        × Lives word ttl c.max_age
  unfolding set_token_cookie
  set_token_cookie-IsSafe config has_writer word now token ttl {c} e =
      let (a, e1) = passed (not has_writer) e in
      elim (Bool-cases (is_nil (trim_space token))) [
        | inl n ↦ absurd (let f = rw n at e1 in cc)
        | inr n ↦ made n (cookie valid config (trim_space token)) refl (rw n at e1)
      ]
    where
      made :
          is_nil (trim_space token) ≡ false
          → (r : Result Cookie) → cookie valid config (trim_space token) ≡ r
          → and_set r (with_lifetime word now ttl) ≡ ok c
          → IsSafe c.config
            × (c.value ≡ trim_space token)
            × (is_nil c.value ≡ false)
            × Lives word ttl c.max_age
      made n (err x) p q = absurd (cc)
      made n (ok d) p q =
          let (safe, same, _) = cookie-IsSafe config (trim_space token) p in
          let (lives, k, v) = with_lifetime-Lives word now ttl d c (rw (← same) refl) q in
          let value : c.value ≡ trim_space token = rw (v, ← same) refl in
          (rw (k, ← same) safe, value, rw value n, lives)
