-- ===== src/Plugins/Http.antt =====
-- plugins/http: the extraction of a token from a request, the middleware and its twin for gin. What the
-- request gives is a parameter: a header, a cookie if there is one, and a query by their names.
pub mod Cookie
pub mod Laws
use better_token.Base.{
  ℕ, Bool, true, false, Option, none, some, List, [], ◌∷◌, ◌++◌, is_nil, if◌then◌else◌,
}
use better_token.Text.{Text}
use better_token.Errors.{Error, Result, ok, err}
use better_token.Options
use better_token.Config.{Config, default_config}
use better_token.Context.{AuthContext, with_auth}
use better_token.Run.{World}
use better_token.Manager.{Manager}
use better_token.Plugins.{authenticate}
use better_token.Plugins.Lookup.{
  TokenLookup, Source, query, default_order, default_token_name, default_authorization_key, Getters,
  resolve, or_text,
}
use better_token.Plugins.Http.Cookie.{CookieConfig, default_cookie_config}

pub record Request : Type 0 where
  pub header_value : Text → Text
  pub cookie_value : Text → Option Text
  pub query_value : Text → Text

-- options; `U` is a handler of refused requests.
pub record HttpOptions (U : Type 0) : Type 0 where
  pub token_name : Text
  pub token_prefix : Text
  pub unauthorized : Option U
  pub authorization_key : Text
  pub allow_query : Bool
  pub read_cookie : Bool
  pub cookie_config : CookieConfig

abbrev pub order_of : Bool → List Source
order_of true = default_order ++ (query ∷ [])
order_of false = []

abbrev or_empty : Option Text → Text
or_empty none = []
or_empty (some value) = value

abbrev pub cookie_getter : Bool → Text → Request → Option (Text → Text)
cookie_getter false name r = none
cookie_getter true name r = some (λ key. or_empty (r.cookie_value name))

-- What the middleware ends in: the handler of refused requests, or the default one, or the next
-- handler with the context that it gets.
pub data Response (U : Type 0) : Type 0 where
  refused : Option U → Response U
  served : Option AuthContext → Response U

abbrev config_of : {S : Type 0} → Option (Manager S) → Config
config_of none = default_config
config_of (some m) = m.config

module _ {U : Type 0} where
  unfoldable pub with_token_name : Text → HttpOptions U → HttpOptions U
  with_token_name name o = if is_nil name then o else record o { token_name = name }

  unfoldable pub with_token_prefix : Text → HttpOptions U → HttpOptions U
  with_token_prefix prefix o = record o { token_prefix = prefix }

  unfoldable pub with_unauthorized : Option U → HttpOptions U → HttpOptions U
  with_unauthorized none o = o
  with_unauthorized (some handler) o = record o { unauthorized = some handler }

  unfoldable pub with_query_token : HttpOptions U → HttpOptions U
  with_query_token o = record o { allow_query = true }

  unfoldable pub with_cookie_config : CookieConfig → HttpOptions U → HttpOptions U
  with_cookie_config config o = record o {
    cookie_config = record config { name = or_text config.name default_token_name };
  }

  unfoldable pub with_cookie_read : Bool → HttpOptions U → HttpOptions U
  with_cookie_read enabled o = record o { read_cookie = enabled }

  -- NewExtractor
  abbrev pub default_options : HttpOptions U
  default_options = record {
    token_name = default_token_name;
    token_prefix = [];
    unauthorized = none;
    authorization_key = default_authorization_key;
    allow_query = false;
    read_cookie = true;
    cookie_config = record default_cookie_config { name = [] };
  }

  abbrev pub settled : HttpOptions U → HttpOptions U
  settled o =
      let name = or_text o.token_name default_token_name in
      record o {
        token_name = name;
        authorization_key = or_text o.authorization_key default_authorization_key;
        cookie_config = record o.cookie_config { name = or_text o.cookie_config.name name };
      }

  abbrev pub lookup_of : HttpOptions U → TokenLookup
  lookup_of o = record {
    token_name = o.token_name;
    token_prefix = o.token_prefix;
    authorization_key = o.authorization_key;
    order = order_of o.allow_query;
  }

  -- An Extractor is its options, from which its lookup is made.
  unfoldable pub new_extractor : List (Option (HttpOptions U → HttpOptions U)) → HttpOptions U
  unfolding Options.apply
  new_extractor opts = settled (Options.apply default_options opts)

  -- OptionsFromConfig
  unfoldable pub options_from_config :
      Config
      → List (Option (HttpOptions U → HttpOptions U))
      → List (Option (HttpOptions U → HttpOptions U))
  unfolding with_token_name with_token_prefix
  options_from_config config opts =
      some (with_token_name config.token_name) ∷ some (with_token_prefix config.token_prefix) ∷ opts

  -- Extractor.ExtractToken
  abbrev pub getters_of : HttpOptions U → Request → Getters
  getters_of o r = record {
    header_of = some r.header_value;
    cookie_of = cookie_getter o.read_cookie o.cookie_config.name r;
    query_of = some r.query_value;
  }

  unfoldable pub extract_token : (ℕ → ℕ) → HttpOptions U → Option Request → Option Text
  unfolding resolve
  extract_token fold o none = none
  extract_token fold o (some r) = resolve fold (lookup_of o) (getters_of o r)

  module _ {S : Type 0} where
    abbrev respond :
        Option U → Option AuthContext → Result AuthContext × World S → Response U × World S
    respond handler ctx (ok auth, w) = (served (with_auth ctx (some auth)), w)
    respond handler ctx (err e, w) = (refused handler, w)

    -- Extractor.Unauthorized is the handler, if one is set. Middleware, for one request
    unfoldable pub handle :
        (ℕ → ℕ)
        → HttpOptions U
        → Option (Manager S)
        → Option AuthContext
        → Option Request
        → World S
        → Response U × World S
    unfolding authenticate extract_token
    handle fold o none ctx r w = (refused o.unauthorized, w)
    handle fold o (some m) ctx r w = admit (extract_token fold o r)
      where
        admit : Option Text → Response U × World S
        admit none = (refused o.unauthorized, w)
        admit (some token) = respond o.unauthorized ctx (authenticate (some m) token w)

    unfoldable pub middleware :
        (ℕ → ℕ)
        → Option (Manager S)
        → List (Option (HttpOptions U → HttpOptions U))
        → Option AuthContext
        → Option Request
        → World S
        → Response U × World S
    unfolding handle new_extractor options_from_config
    middleware fold m opts ctx r w =
        handle fold (new_extractor (options_from_config (config_of m) opts)) m ctx r w
