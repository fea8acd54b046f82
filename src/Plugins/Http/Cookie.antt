-- ===== src/Plugins/Http/Cookie.antt =====
-- plugins/http/cookie.go: the cookie that holds a token. Package net/http is a parameter: what
-- Cookie.Valid says of a cookie; a cookie is written by handing it to http.SetCookie.
pub mod Laws
use better_token.Base.{
  ℕ, zero, suc, ◌+◌, ◌-◌, ◌*◌, ◌/◌, ◌^◌, Bool, true, false, not, ◌&&◌, ◌||◌, Option, none, some, [],
  ◌∷◌, is_nil, leb, ltb, ite, if◌then◌else◌,
}
use better_token.Text.{Text, text, dec_text, trim_space, has_prefix}
use better_token.Time.{Time, Duration, nanoseconds, negative, add_duration}
use better_token.Errors.{Result, ok, err, invalid_cookie, empty_token}
use better_token.Plugins.Lookup.{or_text, default_token_name}

-- http.SameSite: `unset` is 0, and any other number is `other`.
pub data SameSite : Type 0 where
  unset default_mode lax strict none_mode other : SameSite

pub record CookieConfig : Type 0 where
  pub name : Text
  pub path : Text
  pub domain : Text
  pub secure : Bool
  pub http_only : Bool
  pub same_site : SameSite

-- DefaultCookieConfig
abbrev pub default_cookie_config : CookieConfig
default_cookie_config = record {
  name = default_token_name;
  path = text "/";
  domain = [];
  secure = false;
  http_only = true;
  same_site = SameSite.lax;
}

-- What is set of http.Cookie: a MaxAge of -1 is `delete`, and 0 is `session`.
pub data MaxAge : Type 0 where
  session delete : MaxAge
  seconds : ℕ → MaxAge

pub record Cookie : Type 0 where
  pub config : CookieConfig
  pub value : Text
  pub max_age : MaxAge
  pub expires : Option Time

abbrev or_lax : SameSite → SameSite
or_lax SameSite.unset = SameSite.lax
or_lax mode = mode

abbrev pub is_known : SameSite → Bool
is_known SameSite.unset = false
is_known SameSite.other = false
is_known mode = true

abbrev pub is_none_mode : SameSite → Bool
is_none_mode SameSite.none_mode = true
is_none_mode mode = false

abbrev pub is_root : Text → Bool
is_root path = ite (dec_text path (text "/")) true false

-- The defaults of CookieConfig.cookie, and its checks
abbrev pub settled : CookieConfig → CookieConfig
settled c = record c {
  name = or_text c.name default_token_name;
  path = or_text c.path (text "/");
  same_site = or_lax c.same_site;
}

abbrev pub plain_cookie : CookieConfig → Text → Cookie
plain_cookie c value = record { config = c; value = value; max_age = session; expires = none }

abbrev pub second : ℕ
second = 1000000000

-- CookieConfig.SetTokenCookie, on a platform whose int has `word` bits, at the instant `now`
abbrev pub with_lifetime : ℕ → Time → Duration → Cookie → Result Cookie
with_lifetime word now (nanoseconds zero) c = ok c
with_lifetime word now (negative n) c = ok c
with_lifetime word now (nanoseconds (suc n)) c =
    let age = n / second + 1 in
    if ltb age (2 ^ (word - 1))
    then ok (record c {
      max_age = seconds age;
      expires = some (add_duration now (nanoseconds (suc n)));
    })
    else err invalid_cookie

abbrev pub and_set : Result Cookie → (Cookie → Result Cookie) → Result Cookie
and_set (err e) f = err e
and_set (ok c) f = f c

module _ (valid : Cookie → Bool) where
  -- CookieConfig.cookie
  unfoldable pub cookie : CookieConfig → Text → Result Cookie
  unfolding has_prefix dec_text
  cookie config value =
      let c = settled config in
      if not (has_prefix c.path (text "/"))
      then err invalid_cookie
      else if not (is_known c.same_site)
      then err invalid_cookie
      else if is_none_mode c.same_site && not c.secure
      then err invalid_cookie
      else if has_prefix c.name (text "__Secure-") && not c.secure
      then err invalid_cookie
      else if has_prefix c.name (text "__Host-")
          && (not c.secure || not (is_nil c.domain) || not (is_root c.path))
      then err invalid_cookie
      else if not (valid (plain_cookie c value))
      then err invalid_cookie
      else ok (plain_cookie c value)

  -- CookieConfig.SetTokenCookie
  unfoldable pub set_token_cookie : CookieConfig → Bool → ℕ → Time → Text → Duration → Result Cookie
  unfolding cookie trim_space add_duration
  set_token_cookie config has_writer word now token ttl =
      if not has_writer
      then err invalid_cookie
      else if is_nil (trim_space token)
      then err empty_token
      else and_set (cookie config (trim_space token)) (with_lifetime word now ttl)

  -- CookieConfig.ClearTokenCookie: `epoch` is time.Unix(1, 0).
  unfoldable pub clear_token_cookie : CookieConfig → Bool → Time → Result Cookie
  unfolding cookie
  clear_token_cookie config has_writer epoch =
      if not has_writer
      then err invalid_cookie
      else and_set (cookie config [])
          (λ c. ok (record c { max_age = delete; expires = some epoch }))
