-- ===== src/Tests/Plugins.antt =====
-- The theorems on the plugins, at concrete inputs.
use better_token.Base.{ℕ, ◌≡◌, refl, Bool, true, false, none, some, [], ◌∷◌}
use better_token.Base.Map
use better_token.Text.{Text, text, dec_text, trim_space}
use better_token.Time.{nanoseconds}
use better_token.Context.{AuthContext, with_auth}
use better_token.State.{TokenKind}
use better_token.Memory.Tokens.{get_state, save_state}
use better_token.Memory.Calls.{perform_all}
use better_token.Options
use better_token.Plugins.Lookup.{Getters, TokenLookup, resolve}
use better_token.Plugins.Lookup.Sources.{IsFirst, resolve-IsFirst}
use better_token.Plugins.Grpc.{
  ServerOptions, ClientOptions, Metadata, getters_of, inject, settled, default_metadata_key,
}
use better_token.Plugins.Grpc.Laws.{resolve-inject}
use better_token.Plugins.Http.{Request, HttpOptions, new_extractor, extract_token, handle}
use better_token.Plugins.Http.Laws.{IsAdmitted, extract_token-query, handle-IsAdmitted}
use better_token.Plugins.Http.Cookie as Cookies
use better_token.Plugins.Http.Cookie.{
  Cookie, default_cookie_config, plain_cookie, seconds, set_token_cookie,
}
use better_token.Plugins.Http.Cookie.Laws.{IsSafe, Lives, set_token_cookie-IsSafe}
use better_token.Tests.Manager.{m, world}

abbrev same_case : ℕ → ℕ
same_case c = c

-- A request with a token in its cookie alone.
abbrev value_of : Text → Text → Text → Text
value_of name value key = if_same (dec_text key name)
  where
    if_same : Dec (key ≡ name) → Text
    if_same (yes p) = value
    if_same (no p) = []

abbrev request : Request
request = record {
  header_value = λ key. [];
  cookie_value = λ key. some (text "a");
  query_value = λ key. text "b";
}

abbrev getters : Getters
getters = record {
  header_of = some (value_of (text "Authorization") (text "Bearer a"));
  cookie_of = none;
  query_of = none;
}

abbrev bearer : TokenLookup
bearer = record {
  token_name = [];
  token_prefix = text "Bearer";
  authorization_key = [];
  order = [];
}

resolve-IsFirst_example :
    (resolve same_case bearer getters ≡ some (text "a")
      → IsFirst same_case bearer getters (text "a"))
    × (IsFirst same_case bearer getters (text "a")
        → resolve same_case bearer getters ≡ some (text "a"))
resolve-IsFirst_example = resolve-IsFirst same_case bearer getters (text "a")

abbrev client : ClientOptions
client = record { metadata_key = default_metadata_key; token_prefix = text "Bearer" }

abbrev server : ServerOptions
server = record { metadata_key = default_metadata_key; lookup = bearer }

abbrev metadata : Metadata
metadata key = text "Bearer a" ∷ []

resolve-inject_example :
    resolve same_case (settled server).lookup (getters_of same_case metadata) ≡ some (text "a")
unfolding trim_space inject
resolve-inject_example =
    resolve-inject same_case same_case client server metadata (text "a") (refl, tt) refl
      (refl, (refl, (refl, (refl, (refl, (refl, tt)))))) refl refl

abbrev extractor : HttpOptions Text
extractor = new_extractor []

extract_token-query_example :
    extract_token same_case extractor (some (record request { query_value = λ key. text "c" }))
    ≡ extract_token same_case extractor (some request)
unfolding new_extractor Options.apply
extract_token-query_example = extract_token-query same_case extractor request (λ key. text "c") refl

-- The context that a request of the user gets.
abbrev auth : AuthContext
auth = record {
  token = text "a";
  kind = TokenKind.access;
  login_id = text "u";
  login_type = text "login";
  device = [];
  expires_at = some 1000;
  metadata = [];
}

handle-IsAdmitted_example :
    (token : Text) × (found : AuthContext) × (extract_token same_case extractor (some request)
      ≡ some token)
    × (some auth ≡ some found)
    × IsAdmitted m token found world
unfolding handle new_extractor Options.apply get_state Map.get perform_all save_state Map.put
    Map.delete with_auth
handle-IsAdmitted_example = handle-IsAdmitted m same_case extractor none (some request) world refl

-- net/http accepts every cookie here.
abbrev valid : Cookie → Bool
valid c = true

abbrev written : Cookie
written = record (plain_cookie default_cookie_config (text "a")) {
  max_age = seconds 2;
  expires = some 1000000101;
}

set_token_cookie-IsSafe_example :
    IsSafe default_cookie_config
    × (text "a" ≡ trim_space (text " a"))
    × (false ≡ false)
    × Lives 64 (nanoseconds 1000000001) (seconds 2)
unfolding set_token_cookie trim_space Cookies.cookie
set_token_cookie-IsSafe_example =
    set_token_cookie-IsSafe valid default_cookie_config true 64 100 (text " a")
      (nanoseconds 1000000001) {c = written} refl
